-- ===== src/Jobs/Tests.antt =====
-- Tests of the changes of job postings, and the theorems at concrete inputs.
use job_application_api.Prelude.{false, ◌≡◌, refl, not, List, [], ◌∷◌, select}
use job_application_api.Exec.{fault, http, forbidden_exception}
use job_application_api.Repository.{Repository}
use job_application_api.Repository.Rows.{In, rewrite}
use job_application_api.Repository.Keys.{unique_pair}
use job_application_api.Repository.Memory.{memory}
use job_application_api.Users.{employer}
use job_application_api.Jobs.{
  absent, null, given, has_null, Job, open_job, closed_job, clash, Caller, CreateJob, UpdateJob,
  has_id, assign, update, remove,
}
use job_application_api.Jobs.Ownership.{
  UpdateFails, HasUniqueIds, MayManage, IsRefused, update_failure, update_success, remove_failure,
  remove_success,
}

abbrev table : Repository Job clash
table = memory clash (λ js. "new") (λ js. 7)

abbrev clerk : Job
clerk = record {
  id = "j1";
  posted_by = "e1";
  title = "Clerk";
  description = "Files";
  location = "Rome";
  status = open_job;
  created_at = 1;
}

abbrev cook : Job
cook = record {
  id = "j2";
  posted_by = "e2";
  title = "Cook";
  description = "Food";
  location = "Oslo";
  status = open_job;
  created_at = 2;
}

abbrev two_jobs : List Job
two_jobs = clerk ∷ cook ∷ []

abbrev e1 : Caller
e1 = record { id = "e1"; role = employer }

abbrev e2 : Caller
e2 = record { id = "e2"; role = employer }

abbrev closing : UpdateJob
closing = record {
  title = absent;
  description = absent;
  location = absent;
  status = given closed_job;
}

-- a body with a null in it
abbrev untitled : UpdateJob
untitled = record closing { title = null }

two_jobs-HasUniqueIds : HasUniqueIds table two_jobs
two_jobs-HasUniqueIds = unique_pair (λ j. j.id) clerk cook refl

update_failure_example :
    ((update table "j1" untitled e1 two_jobs).1 ≡ two_jobs)
    × UpdateFails table "j1" e1 untitled two_jobs fault
unfolding update has_null
update_failure_example = update_failure table "j1" e1 two_jobs untitled fault refl

update_success_example :
    (has_null closing ≡ false)
    × MayManage table e1 (assign closing clerk)
    × In (assign closing clerk) (table.rows (update table "j1" closing e1 two_jobs).1)
    × (table.rows (update table "j1" closing e1 two_jobs).1
        ≡ rewrite (has_id "j1") (assign closing) two_jobs)
unfolding update has_null
update_success_example =
    update_success table "j1" e1 two_jobs closing (assign closing clerk) two_jobs-HasUniqueIds refl

remove_failure_example :
    ((remove table "j1" e2 two_jobs).1 ≡ two_jobs)
    × IsRefused table "j1" e2 "You can only delete your own job postings." two_jobs
        (http (forbidden_exception "FORBIDDEN" "You can only delete your own job postings."))
unfolding remove
remove_failure_example =
    remove_failure table "j1" e2 two_jobs
      (http (forbidden_exception "FORBIDDEN" "You can only delete your own job postings.")) refl

remove_success_example :
    ((job : Job) × In job two_jobs × (job.id ≡ "j2") × MayManage table e2 job)
    × (table.rows (remove table "j2" e2 two_jobs).1 ≡ select (λ j. not (has_id "j2" j)) two_jobs)
unfolding remove
remove_success_example = remove_success table "j2" e2 two_jobs "Job deleted successfully." refl

abbrev driver : CreateJob
driver = record { title = "Driver"; description = "Vans"; location = "Lima" }
