-- ===== src/Races/Apply.antt =====
-- What holds of applications that run at the same time.
use job_application_api.Prelude.{
  ℕ, ◌+◌, ◌-◌, ◌≤◌, ◌<◌, String, ◌≡◌, refl, ◌⊎◌, inl, inr, Bool, true, false, ◌&&◌, Option, none,
  some, List, [], ◌∷◌, ◌++◌, tally, ◌==◌, eq_iff, if◌then◌else◌, arith, Bool-cases,
}
use job_application_api.Exec.{Result, ok}
use job_application_api.Repository.{Repository}
use job_application_api.Repository.Rows.{In, tally-append}
use job_application_api.Jobs
use job_application_api.Jobs.{Job, closed_job, same_status, Caller}
use job_application_api.Applications
use job_application_api.Applications.{Application, is_of, Store, submit, apply}
use job_application_api.Applications.Apply.{submit_cases}
use job_application_api.Races.{
  World, Step, runs, Reach, here, next, ApplyPhase, starting, checking, saving, finished, Applying,
  after_job, after_check, advance_phase, advance,
}

-- an answer with an application
abbrev is_won : ApplyPhase → Bool
is_won (finished (ok a)) = true
is_won phase = false

abbrev pub won_by : String → String → Applying → Bool
won_by job applicant q = is_won q.phase && (q.job_id == job && q.user.id == applicant)

-- the queries that a process still has to make, at most
abbrev pub left : ApplyPhase → ℕ
left starting = 3
left checking = 2
left saving = 1
left (finished r) = 0

abbrev pub work : List Applying → ℕ
work [] = 0
work (q ∷ qs) = left q.phase + work qs

lost_job : (x : Option Job) → is_won (after_job x) ≡ false
lost_job none = refl
lost_job (some job) = elim (Bool-cases (same_status job.status closed_job)) [
  | inl e ↦ rw e refl
  | inr e ↦ rw e refl
]

lost_check : (x : Option Application) → is_won (after_check x) ≡ false
lost_check none = refl
lost_check (some a) = refl

left_job : (x : Option Job) → left (after_job x) ≤ 2
left_job none = omega arith
left_job (some job) = elim (Bool-cases (same_status job.status closed_job)) [
  | inl e ↦ rw e (omega arith)
  | inr e ↦ rw e (omega arith)
]

left_check : (x : Option Application) → left (after_check x) ≤ 1
left_check none = omega arith
left_check (some a) = omega arith

In-among :
    (before : List Applying) (q : Applying) (after : List Applying) → In q (before ++ q ∷ after)
In-among [] q after = inl refl
In-among (x ∷ xs) q after = inr (In-among xs q after)

-- one process among others
tally-among :
    (p : Applying → Bool) (before : List Applying) (q : Applying) (after : List Applying)
    → tally p (before ++ q ∷ after) ≡ tally p before + (if p q then 1 else 0) + tally p after
tally-among p before q after = rw tally-append (ground arith)

work-append : (xs ys : List Applying) → work (xs ++ ys) ≡ work xs + work ys
work-append [] ys = omega arith
work-append (x ∷ xs) ys = omega (arith, work-append xs ys)

module _ (apps : Repository Application Applications.clash) (jobs : Repository Job Jobs.clash) where
  abbrev pub W : Type 0
  W = World (Store apps jobs) Applying

  abbrev pub stored : String → String → Store apps jobs → ℕ
  stored job applicant s = tally (is_of job applicant) (apps.rows s.apps_table)

  -- a step stores a row exactly when it answers with an application, and then it is the first
  abbrev Counts : String → String → Applying → Store apps jobs → Applying × Store apps jobs → Type 0
  Counts job applicant q s r =
      (stored job applicant r.1 + (if won_by job applicant q then 1 else 0)
        ≡ stored job applicant s + (if won_by job applicant r.0 then 1 else 0))
      × (stored job applicant s ≤ 1 → stored job applicant r.1 ≤ 1)

  phase_Counts :
      (job applicant : String) (q : Applying) (p : ApplyPhase) (s : Store apps jobs)
      → q.phase ≡ p
      → Counts job applicant q s
          (let r = advance_phase apps jobs q p s in (record q { phase = r.0 }, r.1))
  unfolding advance_phase
  phase_Counts job applicant q starting s e =
      rw (e, lost_job (jobs.find_one (Jobs.has_id q.job_id) s.jobs_table)) (refl, λ h. h)
  phase_Counts job applicant q checking s e =
      rw (e, lost_check (apps.find_one (is_of q.job_id q.user.id) s.apps_table)) (refl, λ h. h)
  phase_Counts job applicant q saving s e =
      elim (submit_cases apps jobs q.job_id q.cover_letter q.user s) [
        | inl (out, _) ↦ rw (e, out) (refl, λ h. h)
        | inr (t, out, rows, zero_before) ↦
            rw (e, out, rows, tally-append)
              (elim (Bool-cases (q.job_id == job && q.user.id == applicant)) [
                | inl h ↦
                    let same_job : q.job_id ≡ job = ground (arith, eq_iff q.job_id job) in
                    let same_user : q.user.id ≡ applicant =
                      ground (arith, eq_iff q.user.id applicant) in
                    let none_before : stored job applicant s ≡ 0 =
                      rw (← same_job, ← same_user) zero_before in
                    rw h (omega arith, λ k. omega (arith, none_before))
                | inr h ↦ rw h (omega arith, λ k. omega (arith, k))
              ])
      ]
  phase_Counts job applicant q (finished r) s e = rw e (refl, λ h. h)

  advance-Counts :
      (job applicant : String) (q : Applying) (s : Store apps jobs)
      → Counts job applicant q s (advance apps jobs q s)
  unfolding advance
  advance-Counts job applicant q s = phase_Counts job applicant q q.phase s refl

  abbrev pub won : String → String → W → ℕ
  won job applicant w = tally (won_by job applicant) w.procs

  -- nobody has two applications to one job
  abbrev pub OneEach : W → Type 0
  OneEach w = (job applicant : String) → stored job applicant w.store ≤ 1

  -- as many rows are new as answers with an application are
  abbrev pub Balanced : W → W → Type 0
  Balanced v w =
      (job applicant : String)
      → stored job applicant w.store + won job applicant v
        ≡ stored job applicant v.store + won job applicant w

  Step-sound : {v w : W} → Step (advance apps jobs) v w → (OneEach v → OneEach w) × Balanced v w
  Step-sound (runs s before q after) = (
    λ h job applicant. (advance-Counts job applicant q s).1 (h job applicant),
    λ job applicant.
        let (counts, _) = advance-Counts job applicant q s in
        let won = λ (x : Applying). tally-among (won_by job applicant) before x after in
        omega (arith, counts, won q, won (advance apps jobs q s).0),
  )

  -- However applications interleave, if nobody had two applications to one job, nobody gets two,
  -- and as many applications are stored as requests were answered with one.
  pub Reach-sound : (v w : W) → Reach (advance apps jobs) v w → OneEach v → OneEach w × Balanced v w
  Reach-sound v w here h = (h, λ job applicant. refl)
  Reach-sound v w (next r st) h =
      let (one, counts) = Reach-sound v _ r h in
      let (keeps, more) = Step-sound st in
      (keeps one, λ job applicant. omega (arith, counts job applicant, more job applicant))

  -- an answered request
  abbrev pub IsOver : Applying → Type 0
  IsOver q = (r : Result Application) × (q.phase ≡ finished r)

  -- a process that is not over makes one query, and then has fewer to make; one that is over rests
  phase_rests :
      (q : Applying) (p : ApplyPhase) (s : Store apps jobs)
      → (left (advance_phase apps jobs q p s).0 < left p)
        ⊎ (((r : Result Application) × (p ≡ finished r)) × (advance_phase apps jobs q p s ≡ (p, s)))
  unfolding advance_phase
  phase_rests q starting s =
      inl (omega (arith, left_job (jobs.find_one (Jobs.has_id q.job_id) s.jobs_table)))
  phase_rests q checking s =
      inl (omega (arith, left_check (apps.find_one (is_of q.job_id q.user.id) s.apps_table)))
  phase_rests q saving s = inl (omega arith)
  phase_rests q (finished r) s = inr ((r, refl), refl)

  -- Each step leaves fewer queries to make, or is that of an answered request and changes nothing.
  pub Step-work :
      (v w : W)
      → Step (advance apps jobs) v w
      → (work w.procs < work v.procs) ⊎ (((q : Applying) × In q v.procs × IsOver q) × (w ≡ v))
  unfolding advance
  Step-work v w (runs s before q after) = elim (phase_rests q q.phase s) [
    | inl less ↦ inl (
        omega (
          arith,
          less,
          work-append before (q ∷ after),
          work-append before ((advance apps jobs q s).0 ∷ after),
        ))
    | inr (over, same) ↦ inr ((q, In-among before q after, over), rw same refl)
  ]

  nothing_left : (p : ApplyPhase) → left p ≡ 0 → (r : Result Application) × (p ≡ finished r)
  nothing_left (finished r) e = (r, refl)
  nothing_left starting e = absurd (omega (arith, e))
  nothing_left checking e = absurd (omega (arith, e))
  nothing_left saving e = absurd (omega (arith, e))

  left_step :
      (q : Applying) (s : Store apps jobs) → left (advance apps jobs q s).0.phase ≤ left q.phase - 1
  unfolding advance
  left_step q s = elim (phase_rests q q.phase s) [
    | inl less ↦ omega (arith, less)
    | inr ((r, over), same) ↦ rw (same, over) (omega arith)
  ]

  most : (p : ApplyPhase) → left p ≤ 3
  most starting = omega arith
  most checking = omega arith
  most saving = omega arith
  most (finished r) = omega arith

  -- A request to apply, in whatever phase it is, is answered after three steps of its own, whatever
  -- other requests have made of the tables before each of them.
  pub advance-IsOver :
      (q : Applying) (s t u : Store apps jobs)
      → IsOver (advance apps jobs (advance apps jobs (advance apps jobs q s).0 t).0 u).0
  advance-IsOver q s t u =
      let a = (advance apps jobs q s).0 in
      let b = (advance apps jobs a t).0 in
      nothing_left (advance apps jobs b u).0.phase
        (omega (arith, most q.phase, left_step q s, left_step a t, left_step b u))
