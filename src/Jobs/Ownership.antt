-- ===== src/Jobs/Ownership.antt =====
-- Who may change a job posting, and what a change writes.
use job_application_api.Prelude.{
  ◌≤◌, String, ◌≡◌, ◌≢◌, refl, ◌⊎◌, inl, inr, true, false, not, none, some, List, [], ◌∷◌, ◌++◌,
  select, tally, eq_iff, arith, Bool-cases, Option-cases,
}
use job_application_api.Exec.{
  Failure, http, fault, failure_of, success_of, ok, err, forbidden_exception, not_found_exception,
}
use job_application_api.Repository.{Repository}
use job_application_api.Repository.Rows.{In, rewrite, In-rewrite}
use job_application_api.Repository.Saves.{rows-save}
use job_application_api.Users.{super_admin}
use job_application_api.Jobs.{
  Job, open_job, clash, Caller, CreateJob, UpdateJob, has_id, assign, has_null, create, update,
  remove, may_not_manage,
}

tally_none : (xs : List Job) → tally (λ _. false) xs ≡ 0
tally_none [] = refl
tally_none (x ∷ xs) = tally_none xs

module _ (jobs : Repository Job clash) where
  -- the primary key: one row at most has a given id
  abbrev pub HasUniqueIds : jobs.State → Type 0
  HasUniqueIds s = (i : String) → tally (has_id i) (jobs.rows s) ≤ 1

  -- a super_admin, or the employer who posted the job
  abbrev pub MayManage : Caller → Job → Type 0
  MayManage user job = (user.role ≡ super_admin) ⊎ (job.posted_by ≡ user.id)

  -- why a call is refused: no such job, or a job that the caller may not manage
  abbrev pub IsRefused : String → Caller → String → jobs.State → Failure → Type 0
  IsRefused id user message s f =
      (f ≡ http (not_found_exception "JOB_NOT_FOUND" "Job not found."))
        × (tally (has_id id) (jobs.rows s) ≡ 0)
      ⊎ (f ≡ http (forbidden_exception "FORBIDDEN" message))
        × ((job : Job) × In job (jobs.rows s)
            × (job.id ≡ id)
            × (user.role ≢ super_admin)
            × (job.posted_by ≢ user.id))

  -- why an update fails: it is refused, or assigns null in the caller's own job
  abbrev pub UpdateFails : String → Caller → UpdateJob → jobs.State → Failure → Type 0
  UpdateFails id user dto s f =
      IsRefused id user "You can only update your own job postings." s f
      ⊎ (f ≡ fault)
        × (has_null dto ≡ true)
        × ((job : Job) × In job (jobs.rows s) × (job.id ≡ id) × MayManage user job)

  module _ (id : String) (user : Caller) (s : jobs.State) where
    manage_cases :
        (job : Job)
        → (may_not_manage jobs user job ≡ true)
            × (user.role ≢ super_admin)
            × (job.posted_by ≢ user.id)
          ⊎ (may_not_manage jobs user job ≡ false) × MayManage user job
    manage_cases job = ground (arith, eq_iff job.posted_by user.id)

    refused :
        (message : String) (job : Job)
        → jobs.find_one (has_id id) s ≡ some job
        → user.role ≢ super_admin
        → job.posted_by ≢ user.id
        → IsRefused id user message s (http (forbidden_exception "FORBIDDEN" message))
    refused message job there a b = inr (
      refl,
      (
        job,
        jobs.In-find_one (has_id id) s job there,
        (eq_iff _ _).0 (jobs.find_one_passes (has_id id) s job there),
        a,
        b,
      ),
    )

    missing :
        (message : String)
        → jobs.find_one (has_id id) s ≡ none
        → IsRefused id user message s (http (not_found_exception "JOB_NOT_FOUND" "Job not found."))
    missing message none_there = inl (refl, jobs.find_one_misses (has_id id) s none_there)

    module _ (dto : UpdateJob) where
      update_missing :
          jobs.find_one (has_id id) s ≡ none
          → update jobs id dto user s
            ≡ (err (http (not_found_exception "JOB_NOT_FOUND" "Job not found.")), s)
      unfolding update
      update_missing e = ground arith

      update_forbidden :
          (job : Job)
          → jobs.find_one (has_id id) s ≡ some job
          → may_not_manage jobs user job ≡ true
          → update jobs id dto user s ≡ (
            err (
                http
                  (forbidden_exception "FORBIDDEN" "You can only update your own job postings.")),
            s,
          )
      unfolding update
      update_forbidden job e h = ground arith

      update_allowed :
          (job : Job)
          → jobs.find_one (has_id id) s ≡ some job
          → may_not_manage jobs user job ≡ false
          → has_null dto ≡ false
          → update jobs id dto user s ≡ (
            ok (assign dto job),
            jobs.update (has_id (assign dto job).id) (λ _. assign dto job) s,
          )
      unfolding update
      update_allowed job e h clear = ground arith

      update_null :
          (job : Job)
          → jobs.find_one (has_id id) s ≡ some job
          → may_not_manage jobs user job ≡ false
          → has_null dto ≡ true
          → update jobs id dto user s ≡ (err fault, s)
      unfolding update
      update_null job e h set = ground arith

      assigned : (job : Job) → MayManage user job → MayManage user (assign dto job)
      unfolding assign
      assigned job who = who

      rows_saved :
          (job : Job)
          → jobs.find_one (has_id id) s ≡ some job
          → HasUniqueIds s
          → jobs.rows (jobs.update (has_id (assign dto job).id) (λ _. assign dto job) s)
            ≡ rewrite (has_id id) (assign dto) (jobs.rows s)
      unfolding assign
      rows_saved job e unique =
          rows-save jobs (λ r. r.id) id (assign dto) (λ _. assign dto job) s job e (unique id) refl

      -- An update that fails has changed nothing, and the job is missing, or belongs to another
      -- user than the caller, who is no super_admin; else the caller may manage the job, and the
      -- request sets a property of it to null, which the database refuses.
      pub update_failure :
          (f : Failure)
          → (update jobs id dto user s).0 ≡ err f
          → ((update jobs id dto user s).1 ≡ s) × UpdateFails id user dto s f
      update_failure f h = elim (Option-cases (jobs.find_one (has_id id) s)) [
        | inl e ↦
            let (kept, same) = failure_of _ (update_missing e) h in
            (kept, inl (rw same (missing _ e)))
        | inr (job, e) ↦ elim (manage_cases job) [
          | inl (stop, a, b) ↦
              let (kept, same) = failure_of _ (update_forbidden job e stop) h in
              (kept, inl (rw same (refused _ job e a b)))
          | inr (may, who) ↦ elim (Bool-cases (has_null dto)) [
            | inr clear ↦ cc (update_allowed job e may clear)
            | inl set ↦
                let (kept, same) = failure_of _ (update_null job e may set) h in
                (
                  kept,
                  inr (
                    same,
                    set,
                    (
                      job,
                      jobs.In-find_one (has_id id) s job e,
                      (eq_iff _ _).0 (jobs.find_one_passes (has_id id) s job e),
                      who,
                    ),
                  ),
                )
          ]
        ]
      ]

      -- Where ids are unique, an update that succeeds was made by a super_admin or by the job's
      -- poster, sets no property to null, and assigns the request's properties to the row with the
      -- given id, and to no other row.
      pub update_success :
          (j : Job)
          → HasUniqueIds s
          → (update jobs id dto user s).0 ≡ ok j
          → (has_null dto ≡ false)
            × MayManage user j
            × In j (jobs.rows (update jobs id dto user s).1)
            × (jobs.rows (update jobs id dto user s).1
                ≡ rewrite (has_id id) (assign dto) (jobs.rows s))
      update_success j unique h = elim (Option-cases (jobs.find_one (has_id id) s)) [
        | inl e ↦ cc (update_missing e)
        | inr (job, e) ↦ elim (manage_cases job) [
          | inl (stop, a, b) ↦ cc (update_forbidden job e stop)
          | inr (may, who) ↦
              let clear : has_null dto ≡ false = elim (Bool-cases (has_null dto)) [
                | inl set ↦ cc (update_null job e may set)
                | inr clear ↦ clear
              ] in
              let (after, same) = success_of _ (update_allowed job e may clear) h in
              let rows = rows_saved job e unique in
              (
                clear,
                rw same (assigned job who),
                rw (same, after, rows)
                    (In-rewrite (has_id id) (assign dto) job (jobs.rows s)
                      (jobs.In-find_one (has_id id) s job e)
                      (jobs.find_one_passes (has_id id) s job e)),
                rw after rows,
              )
        ]
      ]

    remove_missing :
        jobs.find_one (has_id id) s ≡ none
        → remove jobs id user s
          ≡ (err (http (not_found_exception "JOB_NOT_FOUND" "Job not found.")), s)
    unfolding remove
    remove_missing e = ground arith

    remove_forbidden :
        (job : Job)
        → jobs.find_one (has_id id) s ≡ some job
        → may_not_manage jobs user job ≡ true
        → remove jobs id user s ≡ (
          err (http (forbidden_exception "FORBIDDEN" "You can only delete your own job postings.")),
          s,
        )
    unfolding remove
    remove_forbidden job e h = ground arith

    remove_allowed :
        (job : Job)
        → jobs.find_one (has_id id) s ≡ some job
        → may_not_manage jobs user job ≡ false
        → remove jobs id user s ≡ (ok "Job deleted successfully.", jobs.remove (has_id job.id) s)
    unfolding remove
    remove_allowed job e h = ground arith

    -- A removal that fails has changed nothing, and the job is missing or belongs to another user
    -- than the caller, who is no super_admin.
    pub remove_failure :
        (f : Failure)
        → (remove jobs id user s).0 ≡ err f
        → ((remove jobs id user s).1 ≡ s)
          × IsRefused id user "You can only delete your own job postings." s f
    remove_failure f h = elim (Option-cases (jobs.find_one (has_id id) s)) [
      | inl e ↦
          let (kept, same) = failure_of _ (remove_missing e) h in (kept, rw same (missing _ e))
      | inr (job, e) ↦ elim (manage_cases job) [
        | inl (stop, a, b) ↦
            let (kept, same) = failure_of _ (remove_forbidden job e stop) h in
            (kept, rw same (refused _ job e a b))
        | inr (may, _) ↦ cc (remove_allowed job e may)
      ]
    ]

    -- A removal that succeeds was made by a super_admin or by the poster of a job with the given
    -- id, and takes out the rows with this id, and no other.
    pub remove_success :
        (message : String)
        → (remove jobs id user s).0 ≡ ok message
        → ((job : Job) × In job (jobs.rows s) × (job.id ≡ id) × MayManage user job)
          × (jobs.rows (remove jobs id user s).1 ≡ select (λ j. not (has_id id j)) (jobs.rows s))
    remove_success message h = elim (Option-cases (jobs.find_one (has_id id) s)) [
      | inl e ↦ cc (remove_missing e)
      | inr (job, e) ↦ elim (manage_cases job) [
        | inl (stop, a, b) ↦ cc (remove_forbidden job e stop)
        | inr (may, who) ↦
            let (after, _) = success_of _ (remove_allowed job e may) h in
            let same = (eq_iff _ _).0 (jobs.find_one_passes (has_id id) s job e) in
            (
              (job, jobs.In-find_one (has_id id) s job e, same, who),
              rw (after, same, jobs.rows-remove) refl,
            )
      ]
    ]

  -- Posting a job never fails, and adds one open job of the caller with the request's texts and
  -- the table's next key.
  pub create_success :
      (dto : CreateJob) (user : Caller) (s : jobs.State)
      → (job : Job) × ((create jobs dto user s).0 ≡ ok job)
        × (job.id ≡ jobs.next_id s)
        × (job.posted_by ≡ user.id)
        × (job.status ≡ open_job)
        × (job.title ≡ dto.title)
        × (job.description ≡ dto.description)
        × (job.location ≡ dto.location)
        × (jobs.rows (create jobs dto user s).1 ≡ jobs.rows s ++ job ∷ [])
  unfolding create
  create_success dto user s =
      let job : Job = record {
        id = jobs.next_id s;
        posted_by = user.id;
        title = dto.title;
        description = dto.description;
        location = dto.location;
        status = open_job;
        created_at = jobs.now s;
      } in
      elim (Option-cases (jobs.insert job s)) [
        | inl e ↦ absurd (jobs.insert_clashes job s e (tally_none (jobs.rows s)))
        | inr (t, e) ↦
            (job, rw e refl, refl, refl, refl, refl, refl, refl, rw e (jobs.rows-insert job s t e))
      ]
