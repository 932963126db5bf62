-- ===== src/Races.antt =====
-- Requests that run at the same time: `apply` of src/applications/applications.service.ts and
-- `updateRole` of src/users/users.service.ts as processes, which give way at every `await`. Between
-- two of them a process has the database for one query, and nothing else runs.
pub mod Apply
pub mod Answers
pub mod Roles
mod Tests
use job_application_api.Prelude.{
  ℕ, suc, String, Bool, true, false, not, ◌&&◌, Option, none, some, List, [], ◌∷◌, ◌++◌, leb, ◌==◌,
  if◌then◌else◌,
}
use job_application_api.Exec.{
  Result, ok, err, http, forbidden_exception, not_found_exception, conflict_exception,
}
use job_application_api.Repository.{Repository}
use job_application_api.Users
use job_application_api.Users.{
  UserRole, super_admin, is_super_admin, User, Profile, profile, has_role, merge,
}
use job_application_api.Users.Roles.{RoleChange}
use job_application_api.Jobs
use job_application_api.Jobs.{Job, closed_job, same_status, Caller}
use job_application_api.Applications
use job_application_api.Applications.{Application, is_of, Store, submit}

-- a table, and the processes that work on it
pub record World (S P : Type 0) : Type 0 where
  pub store : S
  pub procs : List P

-- one of the processes takes its next step
module _ {S P : Type 0} (advance : P → S → P × S) where
  pub data Step : World S P → World S P → Type 0 where
    runs :
        (s : S) (before : List P) (q : P) (after : List P)
        → Step
            (record { store = s; procs = before ++ q ∷ after })
            (record { store = (advance q s).1; procs = before ++ (advance q s).0 ∷ after })

  pub data Reach (v : World S P) : World S P → Type 0 where
    here : Reach v v
    next : {w u : World S P} → Reach v w → Step w u → Reach v u

-- an application on its way: before the query for the job, before the query for an earlier
-- application, before the insertion, and answered
pub data ApplyPhase : Type 0 where
  starting : ApplyPhase
  checking : ApplyPhase
  saving : ApplyPhase
  finished : Result Application → ApplyPhase

pub record Applying : Type 0 where
  pub job_id : String
  pub cover_letter : String
  pub user : Caller
  pub phase : ApplyPhase

abbrev pub after_job : Option Job → ApplyPhase
after_job none = finished (err (http (not_found_exception "JOB_NOT_FOUND" "Job not found.")))
after_job (some job) =
    if same_status job.status closed_job
    then finished (
        err
          (http (forbidden_exception "JOB_CLOSED" "This job is no longer accepting applications.")))
    else checking

abbrev pub after_check : Option Application → ApplyPhase
after_check none = saving
after_check (some a) =
    finished
      (err (http (conflict_exception "ALREADY_APPLIED" "You have already applied for this job.")))

module _ (apps : Repository Application Applications.clash) (jobs : Repository Job Jobs.clash) where
  -- the next phase, and the store after the query of this one
  pub advance_phase : Applying → ApplyPhase → Store apps jobs → ApplyPhase × Store apps jobs
  advance_phase q starting s = (after_job (jobs.find_one (Jobs.has_id q.job_id) s.jobs_table), s)
  advance_phase q checking s =
      (after_check (apps.find_one (is_of q.job_id q.user.id) s.apps_table), s)
  advance_phase q saving s =
      let r = submit apps jobs q.job_id q.cover_letter q.user s in (finished r.0, r.1)
  advance_phase q (finished r) s = (finished r, s)

  pub advance : Applying → Store apps jobs → Applying × Store apps jobs
  unfolding advance_phase
  advance q s = let r = advance_phase q q.phase s in (record q { phase = r.0 }, r.1)

-- a change of a role on its way: before the query for the user, before the count of the
-- administrators, before the save of the changed profile, and answered
pub data RolePhase : Type 0 where
  loading : RolePhase
  counting : Profile → RolePhase
  writing : Profile → RolePhase
  answered : Result Profile → RolePhase

pub record Changing : Type 0 where
  pub request : RoleChange
  pub phase : RolePhase

module _ (users : Repository User Users.clash) where
  pub after_load : RoleChange → Option User → RolePhase
  after_load r none = answered (err (http (not_found_exception "USER_NOT_FOUND" "User not found.")))
  after_load r (some u) =
      if u.id == r.by
      then answered (
          err (
            http (forbidden_exception "CANNOT_CHANGE_OWN_ROLE" "You cannot change your own role.")))
      else if is_super_admin u.role && not (is_super_admin r.role)
      then counting (profile u)
      else writing (record (profile u) { role = r.role })

  pub after_count : RoleChange → Profile → ℕ → RolePhase
  after_count r p n =
      if leb n 1
      then answered
          (err (http (forbidden_exception "LAST_ADMIN" "Cannot demote the last super_admin.")))
      else writing (record p { role = r.role })

  pub change_phase : RoleChange → RolePhase → users.State → RolePhase × users.State
  unfolding after_load after_count
  change_phase r loading s = (after_load r (users.find_one (Users.has_id r.id) s), s)
  change_phase r (counting p) s = (after_count r p (users.count (has_role super_admin) s), s)
  change_phase r (writing p) s = (answered (ok p), users.update (Users.has_id p.id) (merge p) s)
  change_phase r (answered x) s = (answered x, s)

  pub change : Changing → users.State → Changing × users.State
  unfolding change_phase
  change q s = let r = change_phase q.request q.phase s in (record q { phase = r.0 }, r.1)
