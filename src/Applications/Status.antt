-- ===== src/Applications/Status.antt =====
-- `updateStatus`: who may set a status, what is written, and which event is emitted.
use job_application_api.Prelude.{
  ◌≤◌, String, ◌≡◌, ◌≢◌, refl, ◌⊎◌, inl, inr, not, ◌&&◌, none, some, [], ◌∷◌, ◌++◌, tally, ◌==◌,
  eq_iff, arith, Bool-cases, Option-cases,
}
use job_application_api.Exec.{
  Failure, http, Result, ok, err, failure_of, success_of, forbidden_exception, not_found_exception,
}
use job_application_api.Repository.{Repository}
use job_application_api.Repository.Rows.{In, rewrite}
use job_application_api.Repository.Saves.{rows-save}
use job_application_api.Users.{employer, same_role}
use job_application_api.Jobs
use job_application_api.Jobs.{Job, Caller}
use job_application_api.Applications.{
  Application, ApplicationStatus, ApplicationStatusChangedEvent, clash, has_id, Store,
  update_status,
}

abbrev pub reviewed_as : ApplicationStatus → Caller → Application → Application
reviewed_as status reviewer a = record a { status = status; reviewed_by = some reviewer.id }

module _ (apps : Repository Application clash) (jobs : Repository Job Jobs.clash) where
  abbrev Apps : Type 0
  Apps = Store apps jobs

  abbrev pub HasUniqueIds : Apps → Type 0
  HasUniqueIds s = (i : String) → tally (has_id i) (apps.rows s.apps_table) ≤ 1

  -- the foreign key: the job of a stored application is in its table
  abbrev pub HasJobs : Apps → Type 0
  HasJobs s =
      (a : Application)
      → In a (apps.rows s.apps_table)
      → 1 ≤ tally (Jobs.has_id a.job) (jobs.rows s.jobs_table)

  abbrev pub event_of :
      Application → Job → ApplicationStatus → String → ApplicationStatusChangedEvent
  event_of a job status timestamp = record {
    application_id = a.id;
    job_id = job.id;
    applicant_id = a.applicant;
    employer_id = job.posted_by;
    status = status;
    timestamp = timestamp;
  }

  -- anybody but an employer, and the employer who posted the job
  abbrev pub MayReview : Caller → Job → Type 0
  MayReview reviewer job = (reviewer.role ≢ employer) ⊎ (job.posted_by ≡ reviewer.id)

  abbrev pub IsRefused : String → Caller → Apps → Failure → Type 0
  IsRefused id reviewer s f =
      (f ≡ http (not_found_exception "APPLICATION_NOT_FOUND" "Application not found."))
        × (tally (has_id id) (apps.rows s.apps_table) ≡ 0)
      ⊎ (f
          ≡ http (
              forbidden_exception "FORBIDDEN"
                "You can only update applications for your own job postings."))
        × (reviewer.role ≡ employer)
        × ((a : Application) × (job : Job) × In a (apps.rows s.apps_table)
            × (a.id ≡ id)
            × In job (jobs.rows s.jobs_table)
            × (job.id ≡ a.job)
            × (job.posted_by ≢ reviewer.id))

  -- what a success has written and emitted
  abbrev pub IsReviewed :
      String → ApplicationStatus → Caller → String → Apps → Apps → Application → Type 0
  IsReviewed id status reviewer timestamp s t b =
      (a : Application) × (job : Job) × In a (apps.rows s.apps_table)
      × (a.id ≡ id)
      × In job (jobs.rows s.jobs_table)
      × (job.id ≡ a.job)
      × MayReview reviewer job
      × (b ≡ reviewed_as status reviewer a)
      × (apps.rows t.apps_table
          ≡ rewrite (has_id id) (reviewed_as status reviewer) (apps.rows s.apps_table))
      × (t.jobs_table ≡ s.jobs_table)
      × (t.events ≡ s.events ++ event_of a job status timestamp ∷ [])

  module _ (id : String) (status : ApplicationStatus) (reviewer : Caller) (timestamp : String)
      (s : Apps) where
    abbrev call : Result Application × Apps
    call = update_status apps jobs id status reviewer timestamp s

    abbrev after : Application → Job → Apps
    after a job = record s {
      apps_table = apps.update (has_id a.id) (λ _. reviewed_as status reviewer a) s.apps_table;
      events = s.events ++ event_of a job status timestamp ∷ [];
    }

    missing :
        apps.find_one (has_id id) s.apps_table ≡ none
        → call
          ≡ (err (http (not_found_exception "APPLICATION_NOT_FOUND" "Application not found.")), s)
    unfolding update_status
    missing e = ground arith

    module _ (a : Application) (job : Job) (there : apps.find_one (has_id id) s.apps_table ≡ some a)
        (joined : jobs.find_one (Jobs.has_id a.job) s.jobs_table ≡ some job) where
      call_cases :
          (reviewer.role ≡ employer)
            × (job.posted_by ≢ reviewer.id)
            × (call ≡ (
              err (
                  http (
                    forbidden_exception "FORBIDDEN"
                      "You can only update applications for your own job postings.")),
              s,
            ))
          ⊎ MayReview reviewer job × (call ≡ (ok (reviewed_as status reviewer a), after a job))
      unfolding update_status
      call_cases =
          elim (Bool-cases
            (same_role reviewer.role employer && not (job.posted_by == reviewer.id))) [
              | inl stop ↦
                  inl (ground arith, ground (arith, eq_iff job.posted_by reviewer.id), ground arith)
              | inr go ↦ inr (ground (arith, eq_iff job.posted_by reviewer.id), ground arith)
            ]

    rows-after :
        (a : Application) (job : Job)
        → apps.find_one (has_id id) s.apps_table ≡ some a
        → HasUniqueIds s
        → apps.rows (after a job).apps_table
          ≡ rewrite (has_id id) (reviewed_as status reviewer) (apps.rows s.apps_table)
    rows-after a job e unique =
        rows-save apps (λ r. r.id) id (reviewed_as status reviewer)
          (λ _. reviewed_as status reviewer a) s.apps_table a e (unique id) refl

    job_there :
        (a : Application)
        → apps.find_one (has_id id) s.apps_table ≡ some a
        → HasJobs s
        → (job : Job) × (jobs.find_one (Jobs.has_id a.job) s.jobs_table ≡ some job)
    job_there a e foreign = elim (Option-cases (jobs.find_one (Jobs.has_id a.job) s.jobs_table)) [
      | inl lost ↦ absurd (
          omega (
            arith,
            jobs.find_one_misses (Jobs.has_id a.job) s.jobs_table lost,
            foreign a (apps.In-find_one (has_id id) s.apps_table a e),
          ))
      | inr found ↦ found
    ]

    -- Where jobs of applications are there, a call that fails has written and emitted nothing: the
    -- application is missing, or an employer asked for an application to a job that another user
    -- posted.
    pub update_status_failure :
        (f : Failure) → HasJobs s → call.0 ≡ err f → (call.1 ≡ s) × IsRefused id reviewer s f
    update_status_failure f foreign h =
        elim (Option-cases (apps.find_one (has_id id) s.apps_table)) [
          | inl e ↦
              let (kept, same) = failure_of _ (missing e) h in
              (kept, rw same (inl (refl, apps.find_one_misses (has_id id) s.apps_table e)))
          | inr (a, e) ↦
              let (job, j) = job_there a e foreign in
              elim (call_cases a job e j) [
                | inl (role, other, c) ↦
                    let (kept, same) = failure_of _ c h in
                    (
                      kept,
                      rw same (
                          inr (
                            refl,
                            role,
                            (
                              a,
                              job,
                              apps.In-find_one (has_id id) s.apps_table a e,
                              (eq_iff _ _).0 (apps.find_one_passes (has_id id) s.apps_table a e),
                              jobs.In-find_one _ _ job j,
                              (eq_iff _ _).0 (jobs.find_one_passes _ _ job j),
                              other,
                            ),
                          )),
                    )
                | inr (may, c) ↦ cc
              ]
        ]

    -- Where ids are unique and jobs of applications are there, a call that succeeds was not made by
    -- an employer who did not post the job; it sets the status and the reviewer of the row with the
    -- given id, of no other row, and emits exactly one event, with the row's applicant and the
    -- job's poster.
    pub update_status_success :
        (b : Application)
        → HasJobs s
        → HasUniqueIds s
        → call.0 ≡ ok b
        → IsReviewed id status reviewer timestamp s call.1 b
    update_status_success b foreign unique h =
        elim (Option-cases (apps.find_one (has_id id) s.apps_table)) [
          | inl e ↦ cc (missing e)
          | inr (a, e) ↦
              let (job, j) = job_there a e foreign in
              elim (call_cases a job e j) [
                | inl (role, other, c) ↦ cc
                | inr (may, c) ↦
                    let (now, same) = success_of _ c h in
                    (
                      a,
                      job,
                      apps.In-find_one (has_id id) s.apps_table a e,
                      (eq_iff _ _).0 (apps.find_one_passes (has_id id) s.apps_table a e),
                      jobs.In-find_one _ _ job j,
                      (eq_iff _ _).0 (jobs.find_one_passes _ _ job j),
                      may,
                      same,
                      rw now (rows-after a job e unique),
                      rw now refl,
                      rw now refl,
                    )
              ]
        ]

    -- No order of statuses is enforced, where jobs of applications are there: a reviewer who is no
    -- employer may set any status, whatever the status of the application is.
    pub update_status_any :
        (a : Application)
        → reviewer.role ≢ employer
        → HasJobs s
        → apps.find_one (has_id id) s.apps_table ≡ some a
        → call.0 ≡ ok (reviewed_as status reviewer a)
    update_status_any a not_employer foreign e =
        let (job, j) = job_there a e foreign in
        elim (call_cases a job e j) [
          | inl (role, other, c) ↦ absurd (not_employer role)
          | inr (may, c) ↦ rw c refl
        ]
