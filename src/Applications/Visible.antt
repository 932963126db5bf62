-- ===== src/Applications/Visible.antt =====
-- Which applications the lists show.
use job_application_api.Prelude.{◌≡◌, inl, inr, true, ◌&&◌, some, ◌==◌, eq_iff, arith, Option-cases}
use job_application_api.Repository.{Repository}
use job_application_api.Repository.Rows.{In}
use job_application_api.Users.{employer}
use job_application_api.Pagination.{default}
use job_application_api.Pagination.Pages.{In-paginate}
use job_application_api.Jobs
use job_application_api.Jobs.{Job, Caller, where_some}
use job_application_api.Applications.{
  Application, ApplicationStatus, clash, QueryApplications, Store, status_eq, visible, find_all,
  find_mine,
}

status_eq→eq : (a b : ApplicationStatus) → status_eq a b ≡ true → a ≡ b
status_eq→eq a b h = ground arith

module _ (apps : Repository Application clash) (jobs : Repository Job Jobs.clash) where
  -- An employer's list shows applications only to jobs that this employer posted.
  pub find_all-employer :
      (query : QueryApplications) (user : Caller) (s : Store apps jobs) (a : Application)
      → user.role ≡ employer
      → In a (find_all apps jobs query (some user) s).rows
      → (job : Job) × In job (jobs.rows s.jobs_table) × (job.id ≡ a.job) × (job.posted_by ≡ user.id)
  unfolding find_all
  find_all-employer query user s a role m =
      let passes =
        In-paginate apps (λ a. a.created_at)
          (λ a.
            visible apps jobs (some user) s.jobs_table a
            && where_some query.status (λ st. status_eq a.status st))
          s.apps_table (default 1 query.page) (default 10 query.limit) a m in
      elim (Option-cases (jobs.find_one (Jobs.has_id a.job) s.jobs_table)) [
        | inl lost ↦ cc
        | inr (job, found) ↦ (
          job,
          jobs.In-find_one _ _ job found,
          (eq_iff _ _).0 (jobs.find_one_passes _ _ job found),
          (eq_iff _ _).0 (ground arith),
        )
      ]

  -- A user's own list shows only that user's applications, and with a status filter only those
  -- with that status.
  pub find_mine-own :
      (query : QueryApplications) (user : Caller) (s : Store apps jobs) (a : Application)
      (st : ApplicationStatus)
      → query.status ≡ some st
      → In a (find_mine apps jobs user query s).rows
      → (a.applicant ≡ user.id) × (a.status ≡ st)
  unfolding find_mine
  find_mine-own query user s a st wanted m =
      let passes =
        In-paginate apps (λ a. a.created_at)
          (λ a. a.applicant == user.id && where_some query.status (λ st. status_eq a.status st))
          s.apps_table (default 1 query.page) (default 10 query.limit) a m in
      (ground (arith, eq_iff a.applicant user.id), status_eq→eq a.status st (ground arith))
