-- ===== src/Seed/Sound.antt =====
-- The seeded store is a sound one, whatever the tables held.
use job_application_api.Prelude.{
  String, ◌≡◌, refl, inl, inr, Bool, true, not, none, some, List, [], ◌∷◌, ◌++◌, tally, select,
  length, ◌==◌, arith, Option-cases,
}
use job_application_api.Exec.{ok}
use job_application_api.Repository.{Repository}
use job_application_api.Repository.Refs.{HasKeys, Has, HasKeys-append, Refers-append, Has-In}
use job_application_api.Users.{User, super_admin, employer, recruiter, applicant}
use job_application_api.Jobs.{Job, open_job, closed_job}
use job_application_api.Applications.{Application}
use job_application_api.Tokens.{RefreshToken}
use job_application_api.Webhooks.{WebhookLog}
use job_application_api.Api.{Backend}
use job_application_api.Api.Routes.{Store, on_users, on_jobs}
use job_application_api.Api.Tables.{HasFreshKeys, IsSound}
use job_application_api.Seed.{
  save_new, stored, transaction, committed, account, posting, letter, clear, save_users, save_jobs,
  on_applications, seed,
}

-- the state after a new row, the row's key being fresh
abbrev Fits :
    {A : Type 0} {clash : A → A → Bool} (repo : Repository A clash)
    → (A → String)
    → (repo.State → A)
    → repo.State
    → List A
    → Type 0
Fits repo key draft s xs =
    (t : repo.State) × (save_new repo draft s ≡ (ok (draft s), t))
    × (repo.rows t ≡ xs ++ draft s ∷ [])
    × HasKeys key (xs ++ draft s ∷ [])

module _ {A : Type 0} {clash : A → A → Bool} (repo : Repository A clash) where
  -- a new row without a clash is stored behind the others
  save_new-Fits :
      (key : A → String)
      → ((t : repo.State) → tally (λ r. key r == repo.next_id t) (repo.rows t) ≡ 0)
      → (draft : repo.State → A) (s : repo.State) (xs : List A) → key (draft s) ≡ repo.next_id s
      → (repo.rows s ≡ xs) × HasKeys key xs
      → tally (clash (draft s)) xs ≡ 0
      → Fits repo key draft s xs
  unfolding save_new stored
  save_new-Fits key fresh draft s xs id (same, keys) free =
      elim (Option-cases (repo.insert (draft s) s)) [
        | inl e ↦ let clashes = repo.insert_clashes (draft s) s e in absurd (clashes (rw same free))
        | inr (t, e) ↦ (
          t,
          rw e refl,
          rw (← same) (repo.rows-insert (draft s) s t e),
          HasKeys-append key (draft s) xs keys (rw (id, ← same) (fresh s)),
        )
      ]

  emptied : (s : repo.State) → repo.rows (repo.remove (λ r. true) s) ≡ []
  emptied s = rw repo.rows-remove (none_left (repo.rows s))
    where
      none_left : (xs : List A) → select (λ r. not true) xs ≡ []
      none_left [] = refl
      none_left (x ∷ xs) = none_left xs

no_keys : {A : Type 0} (key : A → String) → HasKeys key []
no_keys key i = omega arith

module _ (w : Backend) (fresh : HasFreshKeys w) where
  -- the accounts: one for each role
  record Accounts (hash : String) (s : w.users.State) : Type 0 where
    boss : User
    acme : User
    jane : User
    john : User
    after : w.users.State
    made : save_users w hash s ≡ (ok (acme, john), after)
    rows_after : w.users.rows after ≡ boss ∷ acme ∷ jane ∷ john ∷ []
    keys : HasKeys (λ u. u.id) (boss ∷ acme ∷ jane ∷ john ∷ [])
    emails : HasKeys (λ u. u.email) (boss ∷ acme ∷ jane ∷ john ∷ [])
    boss_role : boss.role ≡ super_admin

  accounts : (hash : String) (s : w.users.State) → w.users.rows s ≡ [] → Accounts hash s
  unfolding save_users transaction committed
  accounts hash s nil =
      let next = save_new-Fits w.users (λ u. u.id) fresh.user in
      let one = account w hash "superadmin@jobapi.dev" super_admin "Super Admin" none in
      let two =
        account w hash "employer@jobapi.dev" employer "Acme Corp"
          (some "https://webhook.site/test-endpoint") in
      let three = account w hash "recruiter@jobapi.dev" recruiter "Jane Recruiter" none in
      let four = account w hash "applicant@jobapi.dev" applicant "John Applicant" none in
      let (t1, e1, r1, k1) = next one s [] refl (nil, no_keys (λ (u : User). u.id)) refl in
      let (t2, e2, r2, k2) = next two t1 (one s ∷ []) refl (r1, k1) refl in
      let (t3, e3, r3, k3) = next three t2 (one s ∷ two t1 ∷ []) refl (r2, k2) refl in
      let (t4, e4, r4, k4) = next four t3 (one s ∷ two t1 ∷ three t2 ∷ []) refl (r3, k3) refl in
      let add = HasKeys-append (λ (u : User). u.email) in
      record {
        boss = one s;
        acme = two t1;
        jane = three t2;
        john = four t3;
        after = t4;
        made = rw (e1, e2, e3, e4) refl;
        rows_after = r4;
        keys = k4;
        emails =
            add (four t3) (one s ∷ two t1 ∷ three t2 ∷ [])
              (add (three t2) (one s ∷ two t1 ∷ [])
                (add (two t1) (one s ∷ []) (add (one s) [] (no_keys (λ (u : User). u.email)) refl)
                  refl)
                refl)
              refl;
        boss_role = refl;
      }

  -- the jobs: all of the employer
  record Postings (poster : String) (s : w.jobs.State) : Type 0 where
    junior : Job
    full_stack : Job
    backend : Job
    after : w.jobs.State
    made : save_jobs w poster s ≡ (ok junior, after)
    rows_after : w.jobs.rows after ≡ junior ∷ full_stack ∷ backend ∷ []
    keys : HasKeys (λ j. j.id) (junior ∷ full_stack ∷ backend ∷ [])
    posters :
        (junior.posted_by ≡ poster) × (full_stack.posted_by ≡ poster) × (backend.posted_by ≡ poster)

  postings : (poster : String) (s : w.jobs.State) → w.jobs.rows s ≡ [] → Postings poster s
  unfolding save_jobs transaction committed
  postings poster s nil =
      let next = save_new-Fits w.jobs (λ j. j.id) fresh.job in
      let one =
        posting w poster "Junior API Developer"
          "Build and maintain RESTful APIs using Node.js and NestJS." "Nairobi, Kenya" open_job in
      let two =
        posting w poster "Full Stack Developer" "Work across the stack with React and Node.js."
          "Remote" open_job in
      let three =
        posting w poster "Backend Engineer (Closed)" "Senior backend role — position filled."
          "Nairobi, Kenya" closed_job in
      let (t1, e1, r1, k1) = next one s [] refl (nil, no_keys (λ (j : Job). j.id)) refl in
      let (t2, e2, r2, k2) = next two t1 (one s ∷ []) refl (r1, k1) refl in
      let (t3, e3, r3, k3) = next three t2 (one s ∷ two t1 ∷ []) refl (r2, k2) refl in
      record {
        junior = one s;
        full_stack = two t1;
        backend = three t2;
        after = t3;
        made = rw (e1, e2, e3) refl;
        rows_after = r3;
        keys = k3;
        posters = (refl, refl, refl);
      }

  module _ (hash : String) (s : Store w)
      (u : Accounts hash (w.users.remove (λ r. true) s.users_table))
      (j : Postings u.acme.id (w.jobs.remove (λ r. true) s.jobs_table)) where
    abbrev first_letter : w.apps.State → Application
    first_letter = letter w j.junior.id u.john.id

    abbrev filled : w.apps.State → Store w
    filled at = record (clear w s) { users_table = u.after; jobs_table = j.after; apps_table = at }

    filled-IsSound :
        (a : Application) (at : w.apps.State)
        → a.job ≡ j.junior.id
        → a.applicant ≡ u.john.id
        → a.reviewed_by ≡ none
        → w.apps.rows at ≡ a ∷ []
        → HasKeys (λ x. x.id) (a ∷ [])
        → IsSound w (filled at)
    unfolding clear
    filled-IsSound a at of_job of_user unset ar ak =
        let (p1, p2, p3) = j.posters in
        let poster : Has (λ (x : User). x.id) u.acme.id (w.users.rows u.after) = rw u.rows_after (
          Has-In (λ (x : User). x.id) u.acme (u.boss ∷ u.acme ∷ u.jane ∷ u.john ∷ [])
            (inr (inl refl))) in
        let user : Has (λ (x : User). x.id) u.john.id (w.users.rows u.after) = rw u.rows_after (
          Has-In (λ (x : User). x.id) u.john (u.boss ∷ u.acme ∷ u.jane ∷ u.john ∷ [])
            (inr (inr (inr (inl refl))))) in
        let job : Has (λ (x : Job). x.id) j.junior.id (w.jobs.rows j.after) = rw j.rows_after (
          Has-In (λ (x : Job). x.id) j.junior (j.junior ∷ j.full_stack ∷ j.backend ∷ [])
            (inl refl)) in
        let add_job = Refers-append (λ (x : Job). x.posted_by) (λ (x : User). x.id) in
        record {
          users = rw u.rows_after (record {
            user_keys = u.keys;
            emails = u.emails;
            some_admin = rw u.boss_role (omega arith);
          });
          jobs = record {
            job_keys = rw j.rows_after j.keys;
            posters = rw j.rows_after (
                add_job j.backend (j.junior ∷ j.full_stack ∷ []) _
                  (add_job j.full_stack (j.junior ∷ []) _
                    (add_job j.junior [] _ (λ x m. absurd m) (rw p1 poster)) (rw p2 poster))
                  (rw p3 poster));
          };
          apps = record {
            sound = record {
              unique_ids = rw ar ak;
              has_jobs = rw ar (λ b m. elim m [ inl e ↦ rw (← e, of_job) job | inr n ↦ absurd n ]);
              one_each = λ k l. rw ar (ground arith);
            };
            applicants =
                rw ar (λ b m. elim m [ inl e ↦ rw (← e, of_user) user | inr n ↦ absurd n ]);
            reviewers = rw ar (λ b i m f. elim m [
              | inl e ↦ let set : a.reviewed_by ≡ some i = rw e f in cc
              | inr n ↦ absurd n
            ]);
          };
          tokens = record {
            token_keys =
                rw (emptied w.tokens s.tokens_table) (no_keys (λ (x : RefreshToken). x.id));
            owners = rw (emptied w.tokens s.tokens_table) (λ x m. absurd m);
          };
          logs = record {
            log_keys = rw (emptied w.logs s.logs_table) (no_keys (λ (x : WebhookLog). x.id));
            subjects = rw (emptied w.logs s.logs_table) (λ x m. absurd m);
          };
        }

  -- Where keys are fresh, from any store, seeding succeeds and gives a sound store: four accounts,
  -- three jobs, and one application.
  pub seed-IsSound :
      (hash : String) (s : Store w)
      → (a : Application) × (t : Store w) × (seed w hash s ≡ (ok a, t))
        × IsSound w t
        × (length (w.users.rows t.users_table) ≡ 4)
        × (length (w.jobs.rows t.jobs_table) ≡ 3)
        × (w.apps.rows t.apps_table ≡ a ∷ [])
  unfolding seed clear on_users on_jobs on_applications
  seed-IsSound hash s =
      let u =
        accounts hash (w.users.remove (λ r. true) s.users_table) (emptied w.users s.users_table) in
      let j =
        postings u.acme.id (w.jobs.remove (λ r. true) s.jobs_table) (emptied w.jobs s.jobs_table) in
      let (at, ae, ar, ak) =
        save_new-Fits w.apps (λ a. a.id) fresh.app (first_letter hash s u j)
          (w.apps.remove (λ r. true) s.apps_table) [] refl
          (emptied w.apps s.apps_table, no_keys (λ (a : Application). a.id)) refl in
      let a = first_letter hash s u j (w.apps.remove (λ r. true) s.apps_table) in
      (
        a,
        filled hash s u j at,
        rw (u.made, j.made, ae) refl,
        filled-IsSound hash s u j a at refl refl refl ar ak,
        rw u.rows_after refl,
        rw j.rows_after refl,
        ar,
      )
