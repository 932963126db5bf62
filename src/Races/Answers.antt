-- ===== src/Races/Answers.antt =====
-- What applications that run alone, and two that run at the same time, are answered.
use job_application_api.Prelude.{
  ◌≤◌, String, ◌≡◌, refl, inl, inr, none, some, List, [], ◌∷◌, ◌++◌, tally, eq_refl, arith,
  Bool-cases, Option-cases,
}
use mathlib.Core.Path.{subst}
use job_application_api.Exec.{Result, ok, err, fault}
use job_application_api.Repository.{Repository}
use job_application_api.Repository.Rows.{tally-append}
use job_application_api.Jobs
use job_application_api.Jobs.{Job, open_job, closed_job, same_status, Caller}
use job_application_api.Applications
use job_application_api.Applications.{Application, is_of, Store, submit, apply}
use job_application_api.Applications.Apply.{draft, submit_cases}
use job_application_api.Races.{
  World, runs, Reach, here, next, ApplyPhase, starting, checking, saving, finished, Applying,
  advance,
}

module _ (apps : Repository Application Applications.clash) (jobs : Repository Job Jobs.clash)
    (job_id cover_letter : String) (user : Caller) (s : Store apps jobs) where
  -- a request that has just come in
  abbrev pub incoming : Applying
  incoming = record { job_id = job_id; cover_letter = cover_letter; user = user; phase = starting }

  abbrev pub thrice : Applying × Store apps jobs
  thrice =
      let a = advance apps jobs incoming s in
      let b = advance apps jobs a.0 a.1 in advance apps jobs b.0 b.1

  -- An application whose three steps follow one another is `apply`.
  thrice-apply : thrice ≡ (
    record incoming { phase = finished (apply apps jobs job_id cover_letter user s).0 },
    (apply apps jobs job_id cover_letter user s).1,
  )
  unfolding advance apply
  thrice-apply = elim (Option-cases (jobs.find_one (Jobs.has_id job_id) s.jobs_table)) [
    | inl e ↦ rw e refl
    | inr (job, e) ↦ elim (Bool-cases (same_status job.status closed_job)) [
      | inl closed ↦ rw (e, closed) refl
      | inr not_closed ↦ elim (Option-cases (apps.find_one (is_of job_id user.id) s.apps_table)) [
        | inl new ↦ rw (e, not_closed, new) refl
        | inr (a, old) ↦ rw (e, not_closed, old) refl
      ]
    ]
  ]

  abbrev pub at_phase : ApplyPhase → Applying
  at_phase p = record incoming { phase = p }

  abbrev pub W : Type 0
  W = World (Store apps jobs) Applying

  -- a step that is known
  by_step :
      (v : W) (before : List Applying) (q : Applying) (after : List Applying) (u : Store apps jobs)
      (r : Applying) (t : Store apps jobs)
      → advance apps jobs q u ≡ (r, t)
      → Reach (advance apps jobs) v (record { store = u; procs = before ++ q ∷ after })
      → Reach (advance apps jobs) v (record { store = t; procs = before ++ r ∷ after })
  by_step v before q after u r t e path =
      subst
        (λ x. Reach (advance apps jobs) v (record { store = x.1; procs = before ++ x.0 ∷ after })) e
        (next path (runs u before q after))

  module _ (job : Job) (posted : jobs.find_one (Jobs.has_id job_id) s.jobs_table ≡ some job)
      (open_now : job.status ≡ open_job)
      (first_time : apps.find_one (is_of job_id user.id) s.apps_table ≡ none) where
    asks : advance apps jobs (at_phase starting) s ≡ (at_phase checking, s)
    unfolding advance
    asks = rw (posted, open_now) refl

    checks : advance apps jobs (at_phase checking) s ≡ (at_phase saving, s)
    unfolding advance
    checks = rw first_time refl

    saves :
        (u t : Store apps jobs) (r : Result Application)
        → submit apps jobs job_id cover_letter user u ≡ (r, t)
        → advance apps jobs (at_phase saving) u ≡ (at_phase (finished r), t)
    unfolding advance
    saves u t r e = rw e refl

    -- the two requests, each with its phase
    abbrev both : Store apps jobs → ApplyPhase → ApplyPhase → W
    both u p q = record { store = u; procs = at_phase p ∷ at_phase q ∷ [] }

    both_ready : Reach (advance apps jobs) (both s starting starting) (both s saving saving)
    both_ready =
        let v = both s starting starting in
        by_step v (at_phase saving ∷ []) (at_phase checking) [] s (at_phase saving) s checks (
          by_step v (at_phase saving ∷ []) (at_phase starting) [] s (at_phase checking) s asks (
            by_step v [] (at_phase checking) (at_phase starting ∷ []) s (at_phase saving) s checks (
              by_step v [] (at_phase starting) (at_phase starting ∷ []) s (at_phase checking) s asks
                here)))

    -- Two equal requests to apply for an open job, by a user without an application to it, can
    -- interleave so that the second is answered neither with an application nor with
    -- ALREADY_APPLIED, but with the database's error.
    pub race_fault :
        (t : Store apps jobs) × Reach (advance apps jobs) (both s starting starting) (
          both t
            (finished (ok (draft apps jobs job_id cover_letter user s)))
            (finished (err fault)))
    race_fault = elim (submit_cases apps jobs job_id cover_letter user s) [
      | inl (_, some_before) ↦
          absurd (some_before (apps.find_one_misses (is_of job_id user.id) s.apps_table first_time))
      | inr (table, out, rows, _) ↦
          let t = record s { apps_table = table } in
          let mine = finished (ok (draft apps jobs job_id cover_letter user s)) in
          let there : 1 ≤ tally (is_of job_id user.id) (apps.rows table) =
            rw (rows, tally-append, eq_refl job_id, eq_refl user.id) (omega arith) in
          elim (submit_cases apps jobs job_id cover_letter user t) [
            | inr (_, _, _, none_before) ↦ absurd (omega (arith, there, none_before))
            | inl (clashes, _) ↦ (
              t,
              by_step _ (at_phase mine ∷ []) (at_phase saving) [] t
                  (at_phase (finished (err fault))) t (saves t t (err fault) clashes)
                  (by_step _ [] (at_phase saving) (at_phase saving ∷ []) s (at_phase mine) t
                    (saves s t _ out) both_ready),
            )
          ]
    ]
