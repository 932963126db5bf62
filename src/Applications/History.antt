-- ===== src/Applications/History.antt =====
-- What holds of the tables after any sequence of applications and reviews.
use job_application_api.Prelude.{
  ◌≤◌, String, ◌≡◌, refl, inl, inr, List, [], ◌∷◌, ◌++◌, tally, eq_iff, eq_refl, arith,
}
use job_application_api.Exec.{Result-cases}
use job_application_api.Repository.{Repository}
use job_application_api.Repository.Rows.{rewrite, tally-append, tally-rewrite_same, tally-In}
use job_application_api.Repository.Refs.{In-append_cases, In-rewrite_cases}
use job_application_api.Jobs
use job_application_api.Jobs.{Job, Caller}
use job_application_api.Applications.{
  Application, ApplicationStatus, clash, has_id, is_of, Store, apply, update_status,
}
use job_application_api.Applications.Apply.{apply_failure, apply_success}
use job_application_api.Applications.Status.{
  HasUniqueIds, HasJobs, reviewed_as, update_status_failure, update_status_success,
}

-- a request to one of the two endpoints that change the tables
pub data Request : Type 0 where
  applies : (job_id cover_letter : String) → Caller → Request
  reviews : (id : String) → ApplicationStatus → Caller → (timestamp : String) → Request

module _ (apps : Repository Application clash) (jobs : Repository Job Jobs.clash) where
  abbrev Apps : Type 0
  Apps = Store apps jobs

  -- keys are unique, jobs are there, and nobody has two applications to one job
  pub record IsSound (s : Apps) : Type 0 where
    pub unique_ids : HasUniqueIds apps jobs s
    pub has_jobs : HasJobs apps jobs s
    pub one_each :
        (job applicant : String) → tally (is_of job applicant) (apps.rows s.apps_table) ≤ 1

  -- the state after a request, whatever it returns
  pub serve : Request → Apps → Apps
  serve (applies job_id cover_letter user) s = (apply apps jobs job_id cover_letter user s).1
  serve (reviews id status reviewer timestamp) s =
      (update_status apps jobs id status reviewer timestamp s).1

  pub serve_all : List Request → Apps → Apps
  serve_all [] s = s
  serve_all (r ∷ rs) s = serve_all rs (serve r s)

  -- a row added to a sound table
  IsSound-add :
      (s t : Apps) (a : Application)
      → IsSound s
      → apps.rows t.apps_table ≡ apps.rows s.apps_table ++ a ∷ []
      → t.jobs_table ≡ s.jobs_table
      → tally (has_id a.id) (apps.rows s.apps_table) ≡ 0
      → tally (is_of a.job a.applicant) (apps.rows s.apps_table) ≡ 0
      → 1 ≤ tally (Jobs.has_id a.job) (jobs.rows s.jobs_table)
      → IsSound t
  IsSound-add s t a h rows js new_id new_pair job = record {
    unique_ids = λ i. rw (rows, tally-append) (ground (arith, h.unique_ids i, eq_iff a.id i));
    has_jobs = λ b m. rw js (elim (In-append_cases a (apps.rows s.apps_table) b (rw rows at m)) [
      | inl old ↦ h.has_jobs b old
      | inr e ↦ rw (← e) job
    ]);
    one_each = λ j p.
        rw (rows, tally-append)
          (ground (arith, h.one_each j p, eq_iff a.job j, eq_iff a.applicant p));
  }

  IsSound-rewrite :
      (s t : Apps) (id : String) (status : ApplicationStatus) (reviewer : Caller)
      → IsSound s
      → apps.rows t.apps_table
        ≡ rewrite (has_id id) (reviewed_as status reviewer) (apps.rows s.apps_table)
      → t.jobs_table ≡ s.jobs_table
      → IsSound t
  IsSound-rewrite s t id status reviewer h rows js = record {
    unique_ids = λ i.
        rw
          (
            rows,
            tally-rewrite_same (has_id id) (reviewed_as status reviewer) (has_id i) (λ _. refl),
          )
          (h.unique_ids i);
    has_jobs = λ b m.
        let (a, there, which) =
          In-rewrite_cases (has_id id) (reviewed_as status reviewer) (apps.rows s.apps_table) b
            (rw rows at m) in
        let same : a.job ≡ b.job = ground arith in rw (js, ← same) (h.has_jobs a there);
    one_each = λ j q.
        rw
          (
            rows,
            tally-rewrite_same (has_id id) (reviewed_as status reviewer) (is_of j q) (λ _. refl),
          )
          (h.one_each j q);
  }

  module _
      (next_id_fresh : (s : apps.State) → tally (has_id (apps.next_id s)) (apps.rows s) ≡ 0) where
    pub apply-IsSound :
        (job_id cover_letter : String) (user : Caller) (s : Apps)
        → IsSound s
        → IsSound (apply apps jobs job_id cover_letter user s).1
    apply-IsSound job_id cover_letter user s h =
        elim (Result-cases (apply apps jobs job_id cover_letter user s).0) [
          | inl (f, e) ↦ rw ((apply_failure apps jobs job_id cover_letter user s f e).0) h
          | inr (a, e) ↦
              let ((job, there, same, _), none_before, (id, j, p, _, _, _), rows, js, _) =
                apply_success apps jobs job_id cover_letter user s a e in
              IsSound-add s _ a h rows js (rw id (next_id_fresh s.apps_table))
                (rw (j, p) none_before)
                (rw j (tally-In (Jobs.has_id job_id) job _ there (rw same (eq_refl job_id))))
        ]

    pub update_status-IsSound :
        (id : String) (status : ApplicationStatus) (reviewer : Caller) (timestamp : String)
        (s : Apps)
        → IsSound s
        → IsSound (update_status apps jobs id status reviewer timestamp s).1
    update_status-IsSound id status reviewer timestamp s h =
        elim (Result-cases (update_status apps jobs id status reviewer timestamp s).0) [
          | inl (f, e) ↦
              rw ((update_status_failure apps jobs id status reviewer timestamp s f h.has_jobs e).0)
                h
          | inr (b, e) ↦
              let done =
                update_status_success apps jobs id status reviewer timestamp s b h.has_jobs
                  h.unique_ids e in
              IsSound-rewrite s _ id status reviewer h done.8 done.9
        ]

    serve-IsSound : (r : Request) (s : Apps) → IsSound s → IsSound (serve r s)
    unfolding serve
    serve-IsSound (applies job_id cover_letter user) s h =
        apply-IsSound job_id cover_letter user s h
    serve-IsSound (reviews id status reviewer timestamp) s h =
        update_status-IsSound id status reviewer timestamp s h

    -- If the database gives fresh keys, then after any requests, from tables where keys are unique,
    -- jobs are there and nobody has two applications to one job, all of this still holds.
    pub serve_all-IsSound : (rs : List Request) (s : Apps) → IsSound s → IsSound (serve_all rs s)
    unfolding serve_all
    serve_all-IsSound [] s h = h
    serve_all-IsSound (r ∷ rs) s h = serve_all-IsSound rs (serve r s) (serve-IsSound r s h)
