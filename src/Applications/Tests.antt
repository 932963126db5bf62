-- ===== src/Applications/Tests.antt =====
-- Tests of applications and reviews, and the theorems at concrete inputs.
use job_application_api.Prelude.{◌≡◌, ◌≢◌, refl, inl, inr, none, some, List, [], ◌∷◌, tally, arith}
use job_application_api.Exec.{Failure, http, forbidden_exception}
use job_application_api.Repository.{Repository}
use job_application_api.Repository.Rows.{In}
use job_application_api.Repository.Keys.{fresh_key}
use job_application_api.Repository.Memory.{memory}
use job_application_api.Users.{employer, recruiter, applicant}
use job_application_api.Jobs
use job_application_api.Jobs.{Job, open_job, closed_job, Caller}
use job_application_api.Applications.{
  Application, pending, hired, rejected, clash, QueryApplications, is_of, Store, apply,
  update_status, find_all,
}
use job_application_api.Pagination.{paginate}
use job_application_api.Applications.Apply.{
  IsSubmitted, IsRefused as IsTurnedDown, apply_failure, apply_success,
}
use job_application_api.Applications.Status.{
  IsRefused, HasUniqueIds, HasJobs, IsReviewed, reviewed_as, update_status_failure,
  update_status_success,
}
use job_application_api.Applications.Visible.{find_all-employer}
use job_application_api.Applications.History.{Request, applies, reviews, IsSound}

abbrev apps : Repository Application clash
apps = memory clash (fresh_key (λ a. a.id)) (λ xs. 0)

abbrev jobs : Repository Job Jobs.clash
jobs = memory Jobs.clash (λ js. "new") (λ js. 0)

abbrev clerk : Job
clerk = record {
  id = "j1";
  posted_by = "e1";
  title = "Clerk";
  description = "Files";
  location = "Rome";
  status = open_job;
  created_at = 1;
}

abbrev cook : Job
cook = record {
  id = "j2";
  posted_by = "e2";
  title = "Cook";
  description = "Food";
  location = "Oslo";
  status = closed_job;
  created_at = 2;
}

abbrev old : Application
old = record {
  id = "a1";
  job = "j1";
  applicant = "u1";
  cover_letter = "Hello";
  status = rejected;
  reviewed_by = none;
  created_at = 3;
}

abbrev tables : Store apps jobs
tables = record { apps_table = old ∷ []; jobs_table = clerk ∷ cook ∷ []; events = [] }

abbrev u1 : Caller
u1 = record { id = "u1"; role = applicant }

abbrev u2 : Caller
u2 = record { id = "u2"; role = applicant }

abbrev e1 : Caller
e1 = record { id = "e1"; role = employer }

abbrev e2 : Caller
e2 = record { id = "e2"; role = employer }

abbrev r1 : Caller
r1 = record { id = "r1"; role = recruiter }

abbrev closed : Failure
closed = http (forbidden_exception "JOB_CLOSED" "This job is no longer accepting applications.")

tables-HasUniqueIds : HasUniqueIds apps jobs tables
tables-HasUniqueIds i = ground arith

tables-HasJobs : HasJobs apps jobs tables
tables-HasJobs a (inl e) = rw (← e) (omega arith)
tables-HasJobs a (inr m) = absurd m

apply_failure_example :
    ((apply apps jobs "j2" "Hi" u2 tables).1 ≡ tables)
    × IsTurnedDown apps jobs "j2" u2 tables closed
unfolding apply
apply_failure_example = apply_failure apps jobs "j2" "Hi" u2 tables closed refl

-- the application of `u2` to the open job
abbrev new : Application
new = record {
  id = fresh_key (λ a. a.id) (old ∷ []);
  job = "j1";
  applicant = "u2";
  cover_letter = "Hi";
  status = pending;
  reviewed_by = none;
  created_at = 0;
}

apply_success_example :
    ((job : Job) × In job (clerk ∷ cook ∷ []) × (job.id ≡ "j1") × (job.status ≡ open_job))
    × (tally (is_of "j1" "u2") (old ∷ []) ≡ 0)
    × IsSubmitted apps jobs "j1" "Hi" u2 tables new
    × ((apply apps jobs "j1" "Hi" u2 tables).1.apps_table ≡ old ∷ new ∷ [])
    × ((apply apps jobs "j1" "Hi" u2 tables).1.jobs_table ≡ clerk ∷ cook ∷ [])
    × ((apply apps jobs "j1" "Hi" u2 tables).1.events ≡ [])
unfolding apply
apply_success_example = apply_success apps jobs "j1" "Hi" u2 tables new refl

abbrev forbidden : Failure
forbidden =
    http (
      forbidden_exception "FORBIDDEN" "You can only update applications for your own job postings.")

update_status_failure_example :
    ((update_status apps jobs "a1" hired e2 "now" tables).1 ≡ tables)
    × IsRefused apps jobs "a1" e2 tables forbidden
unfolding update_status
update_status_failure_example =
    update_status_failure apps jobs "a1" hired e2 "now" tables forbidden tables-HasJobs refl

update_status_success_example :
    IsReviewed apps jobs "a1" hired e1 "now" tables
      (update_status apps jobs "a1" hired e1 "now" tables).1
      (reviewed_as hired e1 old)
unfolding update_status
update_status_success_example =
    update_status_success apps jobs "a1" hired e1 "now" tables (reviewed_as hired e1 old)
      tables-HasJobs tables-HasUniqueIds refl

recruiter-ne : r1.role ≢ employer
recruiter-ne h = cc

abbrev everything : QueryApplications
everything = record { page = none; limit = none; status = none }

abbrev rejections : QueryApplications
rejections = record { page = none; limit = none; status = some rejected }

find_all-employer_example :
    (job : Job) × In job (clerk ∷ cook ∷ []) × (job.id ≡ "j1") × (job.posted_by ≡ "e1")
unfolding find_all paginate
find_all-employer_example = find_all-employer apps jobs everything e1 tables old refl (inl refl)

tables-IsSound : IsSound apps jobs tables
tables-IsSound = record {
  unique_ids = tables-HasUniqueIds;
  has_jobs = tables-HasJobs;
  one_each = λ j p. ground arith;
}

abbrev requests : List Request
requests = applies "j1" "Hi" u2 ∷ applies "j1" "Again" u2 ∷ reviews "a1" hired e1 "now" ∷ []
