-- ===== src/Applications.antt =====
-- src/applications/application.entity.ts, the DTOs of src/applications/dto and
-- applications.service.ts: applications, and the service over the tables of applications and jobs.
-- A relation is the id of its row, and a loaded relation is looked up in its table: where the row
-- is missing, reading a property of it throws a TypeError (`fault`). The events that the service
-- emits are a list; the time of day is an argument. The id that a method takes is a UUID;
-- Api.Routes says what other texts give.
pub mod Apply
pub mod Status
pub mod Visible
pub mod History
pub mod Tables
mod Tests
use job_application_api.Prelude.{
  ℕ, String, Bool, true, false, ◌&&◌, Option, none, some, List, [], ◌∷◌, ◌++◌, ◌==◌, if◌then◌else◌,
}
use job_application_api.Exec.{
  Exec, Result, ok, err, fault, pure, throw, throw_if, ◌>>=◌, ◌>>◌, forbidden_exception,
  not_found_exception, conflict_exception,
}
use job_application_api.Repository.{Repository}
use job_application_api.Users.{UserRole, employer, same_role}
use job_application_api.Pagination.{Paginated, paginate, default}
use job_application_api.Jobs
use job_application_api.Jobs.{Job, closed_job, same_status, Caller, where_some}

pub data ApplicationStatus : Type 0 where
  pending reviewed shortlisted rejected hired : ApplicationStatus

abbrev pub status_eq : ApplicationStatus → ApplicationStatus → Bool
status_eq pending pending = true
status_eq reviewed reviewed = true
status_eq shortlisted shortlisted = true
status_eq rejected rejected = true
status_eq hired hired = true
status_eq _ _ = false

pub record Application : Type 0 where
  pub id : String
  pub job : String
  pub applicant : String
  pub cover_letter : String
  pub status : ApplicationStatus
  pub reviewed_by : Option String
  pub created_at : ℕ

-- `@Unique(['job', 'applicant'])`
abbrev pub clash : Application → Application → Bool
clash a b = a.job == b.job && a.applicant == b.applicant

pub record QueryApplications : Type 0 where
  pub page : Option ℕ
  pub limit : Option ℕ
  pub status : Option ApplicationStatus

-- src/webhooks/events/application-status-changed.event.ts
pub record ApplicationStatusChangedEvent : Type 0 where
  pub application_id : String
  pub job_id : String
  pub applicant_id : String
  pub employer_id : String
  pub status : ApplicationStatus
  pub timestamp : String

abbrev pub has_id : String → Application → Bool
has_id i a = a.id == i

abbrev pub is_of : String → String → Application → Bool
is_of job applicant a = a.job == job && a.applicant == applicant

module _ (apps : Repository Application clash) (jobs : Repository Job Jobs.clash) where
  pub record Store : Type 0 where
    pub apps_table : apps.State
    pub jobs_table : jobs.State
    pub events : List ApplicationStatusChangedEvent

  pub inserted : Application → Store → Option apps.State → Result Application × Store
  inserted a s none = (err fault, s)
  inserted a s (some t) = (ok a, record s { apps_table = t })

  pub submit : String → String → Caller → Exec Store Application
  submit job_id cover_letter user s =
      let a : Application = record {
        id = apps.next_id s.apps_table;
        job = job_id;
        applicant = user.id;
        cover_letter = cover_letter;
        status = pending;
        reviewed_by = none;
        created_at = apps.now s.apps_table;
      } in
      inserted a s (apps.insert a s.apps_table)

  job_of : Option Job → Exec Store Job
  job_of none = throw (not_found_exception "JOB_NOT_FOUND" "Job not found.")
  job_of (some job) = pure job

  fresh : Option Application → Exec Store Unit
  fresh none = pure tt
  fresh (some a) =
      throw (conflict_exception "ALREADY_APPLIED" "You have already applied for this job.")

  unfoldable pub apply : String → String → Caller → Exec Store Application
  unfolding job_of fresh submit inserted
  apply job_id cover_letter user = do
    job ← λ s. job_of (jobs.find_one (Jobs.has_id job_id) s.jobs_table) s
    throw_if (same_status job.status closed_job)
        (forbidden_exception "JOB_CLOSED" "This job is no longer accepting applications.")
    (λ s. fresh (apps.find_one (is_of job_id user.id) s.apps_table) s)
    submit job_id cover_letter user

  app_of : Option Application → Exec Store Application
  app_of none = throw (not_found_exception "APPLICATION_NOT_FOUND" "Application not found.")
  app_of (some a) = pure a

  -- the guard for employers reads a property of the loaded job
  guard_employer : Caller → Option Job → Exec Store Unit
  guard_employer reviewer none s =
      if same_role reviewer.role employer then (err fault, s) else (ok tt, s)
  guard_employer reviewer (some job) s =
      if same_role reviewer.role employer && (if job.posted_by == reviewer.id then false else true)
      then throw
          (forbidden_exception "FORBIDDEN"
            "You can only update applications for your own job postings.")
          s
      else (ok tt, s)

  save : Application → Exec Store Application
  save a s = (ok a, record s { apps_table = apps.update (has_id a.id) (λ _. a) s.apps_table })

  emit : Application → String → Option Job → Exec Store Application
  emit a timestamp none s = (err fault, s)
  emit a timestamp (some job) s =
      let event : ApplicationStatusChangedEvent = record {
        application_id = a.id;
        job_id = job.id;
        applicant_id = a.applicant;
        employer_id = job.posted_by;
        status = a.status;
        timestamp = timestamp;
      } in
      (ok a, record s { events = s.events ++ event ∷ [] })

  unfoldable pub update_status :
      String → ApplicationStatus → Caller → String → Exec Store Application
  unfolding app_of guard_employer save emit
  update_status id status reviewer timestamp s =
      (do
        found ← λ s. app_of (apps.find_one (has_id id) s.apps_table) s
        guard_employer reviewer (jobs.find_one (Jobs.has_id found.job) s.jobs_table)
        saved ← save (record found { status = status; reviewed_by = some reviewer.id })
        emit saved timestamp (jobs.find_one (Jobs.has_id found.job) s.jobs_table))
        s

  -- the joined job was posted by this user
  abbrev pub posted_by : String → jobs.State → Application → Bool
  posted_by user js a = elim (jobs.find_one (Jobs.has_id a.job) js) [
    | none ↦ false
    | some job ↦ job.posted_by == user
  ]

  abbrev pub visible : Option Caller → jobs.State → Application → Bool
  visible none js a = true
  visible (some user) js a = if same_role user.role employer then posted_by user.id js a else true

  unfoldable pub find_all : QueryApplications → Option Caller → Store → Paginated Application
  find_all query user s =
      paginate apps (λ a. a.created_at)
        (λ a. visible user s.jobs_table a && where_some query.status (λ st. status_eq a.status st))
        (default 1 query.page) (default 10 query.limit) s.apps_table

  unfoldable pub find_mine : Caller → QueryApplications → Store → Paginated Application
  find_mine user query s =
      paginate apps (λ a. a.created_at)
        (λ a. a.applicant == user.id && where_some query.status (λ st. status_eq a.status st))
        (default 1 query.page) (default 10 query.limit) s.apps_table
