-- ===== src/Jobs/Tables.antt =====
-- What the calls of the service keep of the table of jobs.
use job_application_api.Prelude.{String, not, ◌≡◌, refl, inl, inr, List, tally, Option-cases}
use job_application_api.Exec.{Result-cases}
use job_application_api.Repository.{Repository}
use job_application_api.Repository.Refs.{
  HasKeys, Has, Keeps, HasKeys-append, HasKeys-rewrite, HasKeys-select, Keeps-append, Keeps-rewrite,
  Refers, Refers-append, Refers-rewrite, Refers-select,
}
use job_application_api.Users.{User}
use job_application_api.Jobs.{
  Job, clash, has_id, Caller, CreateJob, UpdateJob, assign, find_one, create, update, remove,
}
use job_application_api.Jobs.Ownership.{
  update_failure, update_success, remove_failure, remove_success, create_success,
}

-- ids are unique, and the posters are there
pub record JobsSound (us : List User) (js : List Job) : Type 0 where
  pub job_keys : HasKeys (λ j. j.id) js
  pub posters : Refers (λ j. j.posted_by) (λ u. u.id) js us

-- what a step that removes nothing leaves of the table
abbrev pub Follows : List User → List Job → List Job → Type 0
Follows us js ks = JobsSound us ks × Keeps (λ j. j.id) js ks

assign_keys :
    (dto : UpdateJob) (j : Job)
    → ((assign dto j).id ≡ j.id) × ((assign dto j).posted_by ≡ j.posted_by)
unfolding assign
assign_keys dto j = (refl, refl)

module _ (us : List User) (jobs : Repository Job clash) (s : jobs.State)
    (h : JobsSound us (jobs.rows s)) where
  pub create-Follows :
      (dto : CreateJob) (user : Caller)
      → tally (has_id (jobs.next_id s)) (jobs.rows s) ≡ 0
      → Has (λ u. u.id) user.id us
      → Follows us (jobs.rows s) (jobs.rows (create jobs dto user s).1)
  create-Follows dto user fresh there =
      let (job, _, id, poster, _, _, _, _, rows) = create_success jobs dto user s in
      rw rows (
        record {
          job_keys = HasKeys-append (λ j. j.id) job (jobs.rows s) h.job_keys (rw id fresh);
          posters =
              Refers-append (λ j. j.posted_by) (λ u. u.id) job (jobs.rows s) us h.posters
                (rw poster there);
        },
        Keeps-append (λ j. j.id) job (jobs.rows s),
      )

  pub update-Follows :
      (id : String) (dto : UpdateJob) (user : Caller)
      → Follows us (jobs.rows s) (jobs.rows (update jobs id dto user s).1)
  update-Follows id dto user = elim (Result-cases (update jobs id dto user s).0) [
    | inl (f, e) ↦ rw ((update_failure jobs id user s dto f e).0) (h, λ i k. k)
    | inr (job, e) ↦
        let (_, _, _, rows) = update_success jobs id user s dto job h.job_keys e in
        let keys = λ (j : Job). (assign_keys dto j).0 in
        rw rows (
          record {
            job_keys =
                HasKeys-rewrite (λ j. j.id) (has_id id) (assign dto) keys (jobs.rows s) h.job_keys;
            posters =
                Refers-rewrite (λ j. j.posted_by) (λ u. u.id) (has_id id) (assign dto)
                  (λ j. (assign_keys dto j).1) (jobs.rows s) us h.posters;
          },
          Keeps-rewrite (λ j. j.id) (has_id id) (assign dto) keys (jobs.rows s),
        )
  ]

  pub remove-JobsSound :
      (id : String) (user : Caller) → JobsSound us (jobs.rows (remove jobs id user s).1)
  remove-JobsSound id user = elim (Result-cases (remove jobs id user s).0) [
    | inl (f, e) ↦ rw ((remove_failure jobs id user s f e).0) h
    | inr (message, e) ↦
        let (_, rows) = remove_success jobs id user s message e in
        rw rows (record {
          job_keys = HasKeys-select (λ j. j.id) (λ j. not (has_id id j)) (jobs.rows s) h.job_keys;
          posters =
              Refers-select (λ j. j.posted_by) (λ u. u.id) (λ j. not (has_id id j)) (jobs.rows s) us
                h.posters;
        })
  ]

pub find_one_state :
    (jobs : Repository Job clash) (id : String) (s : jobs.State) → (find_one jobs id s).1 ≡ s
unfolding find_one
find_one_state jobs id s = elim (Option-cases (jobs.find_one (has_id id) s)) [
  | inl e ↦ rw e refl
  | inr (job, e) ↦ rw e refl
]
