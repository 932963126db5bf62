-- ===== src/Applications/Apply.antt =====
-- `apply`: when it succeeds, what it adds, and why it fails.
use job_application_api.Prelude.{
  ◌≤◌, String, ◌≡◌, ◌≢◌, refl, sym, ◌∙◌, ◌⊎◌, inl, inr, none, some, List, [], ◌∷◌, ◌++◌, tally,
  eq_iff, arith, Bool-cases, Option-cases,
}
use job_application_api.Exec.{
  Failure, http, fault, ok, err, failure_of, success_of, forbidden_exception, not_found_exception,
  conflict_exception,
}
use job_application_api.Repository.{Repository}
use job_application_api.Repository.Rows.{In, tally-In}
use job_application_api.Jobs
use job_application_api.Jobs.{Job, open_job, closed_job, same_status, Caller}
use job_application_api.Applications.{
  Application, pending, clash, is_of, Store, inserted, submit, apply,
}

module _ (apps : Repository Application clash) (jobs : Repository Job Jobs.clash) where
  abbrev Apps : Type 0
  Apps = Store apps jobs

  -- the application that a successful call stores
  abbrev pub IsSubmitted : String → String → Caller → Apps → Application → Type 0
  IsSubmitted job_id cover_letter user s a =
      (a.id ≡ apps.next_id s.apps_table)
      × (a.job ≡ job_id)
      × (a.applicant ≡ user.id)
      × (a.cover_letter ≡ cover_letter)
      × (a.status ≡ pending)
      × (a.reviewed_by ≡ none)

  -- why a call is refused: no such job, a closed job, or an earlier application of the caller
  abbrev pub IsRefused : String → Caller → Apps → Failure → Type 0
  IsRefused job_id user s f =
      (f ≡ http (not_found_exception "JOB_NOT_FOUND" "Job not found."))
        × (tally (Jobs.has_id job_id) (jobs.rows s.jobs_table) ≡ 0)
      ⊎ (f
          ≡ http (forbidden_exception "JOB_CLOSED" "This job is no longer accepting applications."))
        × ((job : Job) × In job (jobs.rows s.jobs_table)
            × (job.id ≡ job_id)
            × (job.status ≡ closed_job))
      ⊎ (f ≡ http (conflict_exception "ALREADY_APPLIED" "You have already applied for this job."))
        × (1 ≤ tally (is_of job_id user.id) (apps.rows s.apps_table))

  module _ (job_id cover_letter : String) (user : Caller) (s : Apps) where
    abbrev js : jobs.State
    js = s.jobs_table

    abbrev pub draft : Application
    draft = record {
      id = apps.next_id s.apps_table;
      job = job_id;
      applicant = user.id;
      cover_letter = cover_letter;
      status = pending;
      reviewed_by = none;
      created_at = apps.now s.apps_table;
    }

    -- the outcomes of a call, with what each establishes
    data Outcome : Type 0 where
      refused :
          (f : Failure)
          → IsRefused job_id user s f
          → apply apps jobs job_id cover_letter user s ≡ (err f, s)
          → Outcome
      stored :
          (job : Job) (t : apps.State)
          → In job (jobs.rows js)
          → job.id ≡ job_id
          → job.status ≡ open_job
          → tally (is_of job_id user.id) (apps.rows s.apps_table) ≡ 0
          → apps.rows t ≡ apps.rows s.apps_table ++ draft ∷ []
          → apply apps jobs job_id cover_letter user s ≡ (ok draft, record s { apps_table = t })
          → Outcome

    clash-is_of : (xs : List Application) → tally (clash draft) xs ≡ tally (is_of job_id user.id) xs
    clash-is_of [] = refl
    clash-is_of (x ∷ xs) = ground (
      arith,
      clash-is_of xs,
      eq_iff job_id x.job,
      eq_iff x.job job_id,
      eq_iff user.id x.applicant,
      eq_iff x.applicant user.id,
    )

    -- The insertion alone: it fails exactly by the unique constraint.
    pub submit_cases :
        ((submit apps jobs job_id cover_letter user s ≡ (err fault, s))
          × (tally (is_of job_id user.id) (apps.rows s.apps_table) ≢ 0))
        ⊎ ((t : apps.State) × (submit apps jobs job_id cover_letter user s
              ≡ (ok draft, record s { apps_table = t }))
            × (apps.rows t ≡ apps.rows s.apps_table ++ draft ∷ [])
            × (tally (is_of job_id user.id) (apps.rows s.apps_table) ≡ 0))
    unfolding submit inserted
    submit_cases = elim (Option-cases (apps.insert draft s.apps_table)) [
      | inl e ↦ inl (
        rw e refl,
        rw (← clash-is_of (apps.rows s.apps_table)) (apps.insert_clashes draft s.apps_table e),
      )
      | inr (t, e) ↦ inr (
        t,
        rw e refl,
        apps.rows-insert draft s.apps_table t e,
        sym (clash-is_of (apps.rows s.apps_table)) ∙ apps.insert_fits draft s.apps_table t e,
      )
    ]

    opened :
        (job : Job)
        → In job (jobs.rows js)
        → job.id ≡ job_id
        → jobs.find_one (Jobs.has_id job_id) js ≡ some job
        → job.status ≡ open_job
        → Outcome
    unfolding apply
    opened job there same e st =
        elim (Option-cases (apps.find_one (is_of job_id user.id) s.apps_table)) [
          | inr (a, old) ↦
              refused _
                (inr (
                  inr (
                    refl,
                    tally-In (is_of job_id user.id) a _ (apps.In-find_one _ _ a old)
                        (apps.find_one_passes _ _ a old),
                  )))
                (ground arith)
          | inl new ↦
              let zero_before = apps.find_one_misses (is_of job_id user.id) s.apps_table new in
              elim (Option-cases (apps.insert draft s.apps_table)) [
                | inl clashes ↦ absurd (
                    apps.insert_clashes draft s.apps_table clashes
                      (rw (clash-is_of (apps.rows s.apps_table)) zero_before))
                | inr (t, fits) ↦
                    stored job t there same st zero_before
                      (apps.rows-insert draft s.apps_table t fits) (ground arith)
              ]
        ]

    outcome : Outcome
    unfolding apply
    outcome = elim (Option-cases (jobs.find_one (Jobs.has_id job_id) js)) [
      | inl e ↦
          refused _ (inl (refl, jobs.find_one_misses (Jobs.has_id job_id) js e)) (ground arith)
      | inr (job, e) ↦
          let there = jobs.In-find_one (Jobs.has_id job_id) js job e in
          let same : job.id ≡ job_id =
            (eq_iff _ _).0 (jobs.find_one_passes (Jobs.has_id job_id) js job e) in
          elim (Bool-cases (same_status job.status closed_job)) [
            | inl closed ↦
                refused _ (inr (inl (refl, (job, there, same, ground arith)))) (ground arith)
            | inr not_closed ↦ opened job there same e (ground arith)
          ]
    ]

    -- A call that fails, while no other call writes to the tables, has changed nothing, and failed
    -- because the job is missing or closed, or the caller has applied to it before.
    pub apply_failure :
        (f : Failure)
        → (apply apps jobs job_id cover_letter user s).0 ≡ err f
        → ((apply apps jobs job_id cover_letter user s).1 ≡ s) × IsRefused job_id user s f
    apply_failure f h = elim outcome [
      | refused g why e ↦ let (kept, same) = failure_of _ e h in (kept, rw same why)
      | stored _ _ _ _ _ _ _ e ↦ cc
    ]

    -- A call that succeeds is for an open job and by a caller who had not applied to it; it adds
    -- one pending application with the table's next key and the caller's letter, and changes
    -- neither the jobs nor the events.
    pub apply_success :
        (a : Application)
        → (apply apps jobs job_id cover_letter user s).0 ≡ ok a
        → ((job : Job) × In job (jobs.rows s.jobs_table)
            × (job.id ≡ job_id)
            × (job.status ≡ open_job))
          × (tally (is_of job_id user.id) (apps.rows s.apps_table) ≡ 0)
          × IsSubmitted job_id cover_letter user s a
          × (apps.rows (apply apps jobs job_id cover_letter user s).1.apps_table
              ≡ apps.rows s.apps_table ++ a ∷ [])
          × ((apply apps jobs job_id cover_letter user s).1.jobs_table ≡ s.jobs_table)
          × ((apply apps jobs job_id cover_letter user s).1.events ≡ s.events)
    apply_success a h = elim outcome [
      | refused g why e ↦ cc
      | stored job t there same st zero_before rows e ↦
          let (after, is_draft) = success_of _ e h in
          (
            (job, there, same, st),
            zero_before,
            rw is_draft (refl, refl, refl, refl, refl, refl),
            rw (after, is_draft) rows,
            rw after refl,
            rw after refl,
          )
    ]
