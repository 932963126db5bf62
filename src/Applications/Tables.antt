-- ===== src/Applications/Tables.antt =====
-- What the calls of the services keep of the table of applications.
use job_application_api.Prelude.{
  String, not, ◌≡◌, refl, inl, inr, List, select, tally, ◌==◌, eq_iff, arith,
}
use job_application_api.Exec.{Result-cases}
use job_application_api.Repository.{Repository}
use job_application_api.Repository.Refs.{
  Has, Keeps, Keeps-append, Keeps-rewrite, Refers-Keeps, Refers-select, HasKeys-select,
  In-select_cases, tally-select-le, tally-select_kept, Refers, Refers-append, Refers-rewrite,
  MayRefer, MayRefer-append, MayRefer-rewrite, MayRefer-select, MayRefer-Keeps,
}
use job_application_api.Users.{User}
use job_application_api.Jobs
use job_application_api.Jobs.{Job, Caller}
use job_application_api.Applications.{
  Application, ApplicationStatus, clash, has_id, is_of, Store, apply, update_status,
}
use job_application_api.Applications.Apply.{apply_failure, apply_success}
use job_application_api.Applications.Status.{
  reviewed_as, update_status_failure, update_status_success,
}
use job_application_api.Applications.History.{IsSound, apply-IsSound, update_status-IsSound}

module _ (apps : Repository Application clash) (jobs : Repository Job Jobs.clash) where
  -- the tables are sound, and the applicants and the reviewers are there
  pub record AppsSound (us : List User) (s : Store apps jobs) : Type 0 where
    pub sound : IsSound apps jobs s
    pub applicants : Refers (λ a. a.applicant) (λ u. u.id) (apps.rows s.apps_table) us
    pub reviewers : MayRefer (λ a. a.reviewed_by) (λ u. u.id) (apps.rows s.apps_table) us

  -- what a step leaves: the jobs are the same, and no application is lost
  abbrev pub Follows : List User → Store apps jobs → Store apps jobs → Type 0
  Follows us s t =
      AppsSound us t
      × (t.jobs_table ≡ s.jobs_table)
      × Keeps (λ a. a.id) (apps.rows s.apps_table) (apps.rows t.apps_table)

  module _ (next_app_fresh : (s : apps.State) → tally (has_id (apps.next_id s)) (apps.rows s) ≡ 0)
      (us : List User) (s : Store apps jobs) (h : AppsSound us s) where
    pub apply-Follows :
        (job_id cover_letter : String) (user : Caller)
        → Has (λ u. u.id) user.id us
        → Follows us s (apply apps jobs job_id cover_letter user s).1
    apply-Follows job_id cover_letter user there =
        elim (Result-cases (apply apps jobs job_id cover_letter user s).0) [
          | inl (f, e) ↦
              rw ((apply_failure apps jobs job_id cover_letter user s f e).0) (h, refl, λ i k. k)
          | inr (a, e) ↦
              let (_, _, (_, _, applicant, _, _, unreviewed), rows, js, _) =
                apply_success apps jobs job_id cover_letter user s a e in
              (
                record {
                  sound = apply-IsSound apps jobs next_app_fresh job_id cover_letter user s h.sound;
                  applicants = rw rows (
                      Refers-append (λ x. x.applicant) (λ u. u.id) a (apps.rows s.apps_table) us
                        h.applicants (rw applicant there));
                  reviewers = rw rows (
                      MayRefer-append (λ x. x.reviewed_by) (λ u. u.id) a (apps.rows s.apps_table) us
                        h.reviewers unreviewed);
                },
                js,
                rw rows (Keeps-append (λ x. x.id) a (apps.rows s.apps_table)),
              )
        ]

    pub update_status-Follows :
        (id : String) (status : ApplicationStatus) (reviewer : Caller) (timestamp : String)
        → Has (λ u. u.id) reviewer.id us
        → Follows us s (update_status apps jobs id status reviewer timestamp s).1
    update_status-Follows id status reviewer timestamp there =
        elim (Result-cases (update_status apps jobs id status reviewer timestamp s).0) [
          | inl (f, e) ↦
              rw
                ((update_status_failure apps jobs id status reviewer timestamp s f h.sound.has_jobs
                  e).0)
                (h, refl, λ i k. k)
          | inr (b, e) ↦
              let done =
                update_status_success apps jobs id status reviewer timestamp s b h.sound.has_jobs
                  h.sound.unique_ids e in
              (
                record {
                  sound =
                      update_status-IsSound apps jobs next_app_fresh id status reviewer timestamp s
                        h.sound;
                  applicants = rw (done.8) (
                      Refers-rewrite (λ x. x.applicant) (λ u. u.id) (has_id id)
                        (reviewed_as status reviewer) (λ _. refl) (apps.rows s.apps_table) us
                        h.applicants);
                  reviewers = rw (done.8) (
                      MayRefer-rewrite (λ x. x.reviewed_by) (λ u. u.id) (has_id id)
                        (reviewed_as status reviewer) reviewer.id (λ _. refl)
                        (apps.rows s.apps_table) us h.reviewers there);
                },
                done.9,
                rw (done.8) (
                    Keeps-rewrite (λ x. x.id) (has_id id) (reviewed_as status reviewer) (λ _. refl)
                      (apps.rows s.apps_table)),
              )
        ]

  -- the applications follow where no user and no job is lost
  pub AppsSound-Keeps :
      (us vs : List User) (s t : Store apps jobs)
      → AppsSound us s
      → Keeps (λ u. u.id) us vs
      → Keeps (λ j. j.id) (jobs.rows s.jobs_table) (jobs.rows t.jobs_table)
      → t.apps_table ≡ s.apps_table
      → AppsSound vs t
  AppsSound-Keeps us vs s t h users_kept jobs_kept e = record {
    sound = record {
      unique_ids = rw e h.sound.unique_ids;
      has_jobs = rw e (λ a m. jobs_kept a.job (h.sound.has_jobs a m));
      one_each = rw e h.sound.one_each;
    };
    applicants = rw e (
        Refers-Keeps (λ a. a.applicant) (λ u. u.id) (apps.rows s.apps_table) us vs h.applicants
          users_kept);
    reviewers = rw e (
        MayRefer-Keeps (λ a. a.reviewed_by) (λ u. u.id) (apps.rows s.apps_table) us vs h.reviewers
          users_kept);
  }

  -- a job and its applications removed
  pub AppsSound-cascade :
      (us : List User) (job_id : String) (s t : Store apps jobs)
      → AppsSound us s
      → jobs.rows t.jobs_table ≡ select (λ j. not (Jobs.has_id job_id j)) (jobs.rows s.jobs_table)
      → apps.rows t.apps_table ≡ select (λ a. not (a.job == job_id)) (apps.rows s.apps_table)
      → AppsSound us t
  AppsSound-cascade us job_id s t h js rows = record {
    sound = record {
      unique_ids = rw rows (
          HasKeys-select (λ a. a.id) (λ a. not (a.job == job_id)) (apps.rows s.apps_table)
            h.sound.unique_ids);
      has_jobs =
          rw (rows, js)
            (λ a m.
              let (there, other) =
                In-select_cases (λ x. not (x.job == job_id)) (apps.rows s.apps_table) a m in
              rw
                (tally-select_kept (λ j. not (Jobs.has_id job_id j)) (Jobs.has_id a.job)
                  (λ j e. let same : j.id ≡ a.job = (eq_iff _ _).0 e in rw same other)
                  (jobs.rows s.jobs_table))
                (h.sound.has_jobs a there));
      one_each = λ j p. rw rows (
          omega (
            arith,
            h.sound.one_each j p,
            tally-select-le (λ a. not (a.job == job_id)) (is_of j p) (apps.rows s.apps_table),
          ));
    };
    applicants = rw rows (
        Refers-select (λ a. a.applicant) (λ u. u.id) (λ a. not (a.job == job_id))
          (apps.rows s.apps_table) us h.applicants);
    reviewers = rw rows (
        MayRefer-select (λ a. a.reviewed_by) (λ u. u.id) (λ a. not (a.job == job_id))
          (apps.rows s.apps_table) us h.reviewers);
  }
