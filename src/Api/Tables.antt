-- ===== src/Api/Tables.antt =====
-- The invariant of all tables together, and what keeps it when one table changes.
use job_application_api.Prelude.{
  String, ◌≡◌, refl, ◌⊎◌, inl, inr, Bool-cases, not, List, tally, select, ◌==◌,
}
use job_application_api.Exec.{Exec, Result, ok, err, fault, Result-cases}
use job_application_api.Repository.Refs.{Keeps, Refers-Keeps}
use job_application_api.Users
use job_application_api.Users.{User, profile}
use job_application_api.Users.Tables.{UsersSound, Follows as UsersFollow}
use job_application_api.Jobs
use job_application_api.Jobs.Tables.{JobsSound, Follows as JobsFollow}
use job_application_api.Applications
use job_application_api.Applications.Tables.{
  AppsSound, Follows as AppsFollow, AppsSound-Keeps, AppsSound-cascade,
}
use job_application_api.Applications.{ApplicationStatusChangedEvent}
use job_application_api.Tokens
use job_application_api.Auth.Tables.{TokensSound}
use job_application_api.Webhooks.Tables.{
  LogsSound, Follows as HooksFollow, LogsSound-Keeps, LogsSound-cascade, has_id,
}
use job_application_api.Http.{Handled}
use job_application_api.Api.{Backend, Body, PageMeta}
use job_application_api.Api.Routes.{
  Store, AuthStore, AppsStore, HooksStore, by_id, cascade, apps_part, auth_part, hooks_part,
  returns,
}
use job_application_api.Api.Serve.{hooks_done, answered}

module _ (w : Backend) where
  abbrev pub users_of : Store w → List User
  users_of s = w.users.rows s.users_table

  -- the keys that the database generates are new ones
  pub record HasFreshKeys : Type 0 where
    pub user : (t : w.users.State) → tally (Users.has_id (w.users.next_id t)) (w.users.rows t) ≡ 0
    pub job : (t : w.jobs.State) → tally (Jobs.has_id (w.jobs.next_id t)) (w.jobs.rows t) ≡ 0
    pub app :
        (t : w.apps.State) → tally (Applications.has_id (w.apps.next_id t)) (w.apps.rows t) ≡ 0
    pub token :
        (t : w.tokens.State) → tally (Tokens.has_id (w.tokens.next_id t)) (w.tokens.rows t) ≡ 0
    pub log : (t : w.logs.State) → tally (has_id (w.logs.next_id t)) (w.logs.rows t) ≡ 0

  -- keys are unique and what they refer to is there, in every table; emails are unique, there is an
  -- administrator, and nobody has two applications to one job
  pub record IsSound (s : Store w) : Type 0 where
    pub users : UsersSound (users_of s)
    pub jobs : JobsSound (users_of s) (w.jobs.rows s.jobs_table)
    pub apps : AppsSound w.apps w.jobs (users_of s) (apps_part w s)
    pub tokens : TokensSound (users_of s) (w.tokens.rows s.tokens_table)
    pub logs : LogsSound (w.apps.rows s.apps_table) (w.logs.rows s.logs_table)

  pub returns_state :
      {A : Type 0} (f : A → Handled Body PageMeta) (m : Exec (Store w) A) (s : Store w)
      → (returns w f m s).1 ≡ (m s).1
  unfolding returns
  returns_state f m s = elim (Result-cases (m s).0) [
    | inl (g, e) ↦ rw e refl
    | inr (a, e) ↦ rw e refl
  ]

  pub by_id_cases :
      {A : Type 0} (id : String) (m : Exec (Store w) A) (s : Store w)
      → (by_id w id m s ≡ m s) ⊎ (by_id w id m s ≡ (err fault, s))
  unfolding by_id
  by_id_cases id m s = elim (Bool-cases (w.is_uuid id)) [
    | inl e ↦ inl (rw e refl)
    | inr e ↦ inr (rw e refl)
  ]

  pub by_id-IsSound :
      {A : Type 0} (id : String) (m : Exec (Store w) A) (s : Store w)
      → IsSound s
      → IsSound (m s).1
      → IsSound (by_id w id m s).1
  by_id-IsSound id m s before after = elim (by_id_cases id m s) [
    | inl e ↦ rw e after
    | inr e ↦ rw e before
  ]

  pub answered_state : (r : Result (Handled Body PageMeta) × Store w) → (answered w r).1 ≡ r.1
  unfolding answered
  answered_state (ok h, s) = refl
  answered_state (err f, s) = refl

  pub by_returns :
      {A : Type 0} (f : A → Handled Body PageMeta) (m : Exec (Store w) A) (s : Store w)
      → IsSound (m s).1
      → IsSound (returns w f m s).1
  by_returns f m s h = rw returns_state h

  -- new tables of users and tokens
  pub IsSound-auth :
      (s : Store w) (t : AuthStore w)
      → IsSound s
      → UsersFollow (users_of s) (w.users.rows t.users_table)
      → TokensSound (w.users.rows t.users_table) (w.tokens.rows t.tokens_table)
      → IsSound
          (record s { users_table = t.users_table; tokens_table = t.tokens_table; cache = t.cache })
  IsSound-auth s t h (users_sound, kept) tokens_sound = record {
    users = users_sound;
    jobs = record {
      job_keys = h.jobs.job_keys;
      posters =
          Refers-Keeps (λ j. j.posted_by) (λ u. u.id) (w.jobs.rows s.jobs_table) (users_of s)
            (w.users.rows t.users_table) h.jobs.posters kept;
    };
    apps =
        AppsSound-Keeps w.apps w.jobs (users_of s) (w.users.rows t.users_table) (apps_part w s)
          (apps_part w s) h.apps kept (λ i k. k) refl;
    tokens = tokens_sound;
    logs = h.logs;
  }

  -- the tokens of other users
  pub TokensSound-Keeps :
      (us vs : List User) (ts : List Tokens.RefreshToken)
      → TokensSound us ts
      → Keeps (λ u. u.id) us vs
      → TokensSound vs ts
  TokensSound-Keeps us vs ts h kept = record {
    token_keys = h.token_keys;
    owners = Refers-Keeps (λ t. t.user) (λ u. u.id) ts us vs h.owners kept;
  }

  pub IsSound-users :
      (s : Store w) (t : w.users.State)
      → IsSound s
      → UsersFollow (users_of s) (w.users.rows t)
      → IsSound (record s { users_table = t })
  IsSound-users s t h f =
      IsSound-auth s (record (auth_part w s) { users_table = t }) h f
        (TokensSound-Keeps (users_of s) (w.users.rows t) (w.tokens.rows s.tokens_table) h.tokens
          f.1)

  pub IsSound-tokens :
      (s : Store w) (t : AuthStore w)
      → IsSound s
      → (t.users_table ≡ s.users_table) × TokensSound (users_of s) (w.tokens.rows t.tokens_table)
      → IsSound
          (record s { users_table = t.users_table; tokens_table = t.tokens_table; cache = t.cache })
  IsSound-tokens s t h (same, tokens_sound) =
      IsSound-auth s t h (rw same (h.users, λ i k. k)) (rw same tokens_sound)

  pub IsSound-jobs :
      (s : Store w) (t : w.jobs.State)
      → IsSound s
      → JobsFollow (users_of s) (w.jobs.rows s.jobs_table) (w.jobs.rows t)
      → IsSound (record s { jobs_table = t })
  IsSound-jobs s t h (jobs_sound, kept) = record {
    users = h.users;
    jobs = jobs_sound;
    apps =
        AppsSound-Keeps w.apps w.jobs (users_of s) (users_of s) (apps_part w s)
          (apps_part w (record s { jobs_table = t })) h.apps (λ i k. k) kept refl;
    tokens = h.tokens;
    logs = h.logs;
  }

  pub IsSound-apps :
      (s : Store w) (t : AppsStore w)
      → IsSound s
      → AppsFollow w.apps w.jobs (users_of s) (apps_part w s) t
      → IsSound
          (record s { apps_table = t.apps_table; jobs_table = t.jobs_table; events = t.events })
  IsSound-apps s t h (apps_sound, same, kept) = record {
    users = h.users;
    jobs = rw same h.jobs;
    apps = apps_sound;
    tokens = h.tokens;
    logs =
        LogsSound-Keeps (w.apps.rows s.apps_table) (w.apps.rows t.apps_table)
          (w.logs.rows s.logs_table) h.logs kept;
  }

  -- a job removed with what refers to it
  pub IsSound-cascade :
      (job_id : String) (s : Store w) (t : w.jobs.State)
      → IsSound s
      → JobsSound (users_of s) (w.jobs.rows t)
      → w.jobs.rows t ≡ select (λ j. not (Jobs.has_id job_id j)) (w.jobs.rows s.jobs_table)
      → IsSound (cascade w job_id (record s { jobs_table = t }))
  unfolding cascade
  IsSound-cascade job_id s t h jobs_sound js = record {
    users = h.users;
    jobs = jobs_sound;
    apps =
        AppsSound-cascade w.apps w.jobs (users_of s) job_id (apps_part w s) _ h.apps js
          (w.apps.rows-remove (λ a. a.job == job_id) s.apps_table);
    tokens = h.tokens;
    logs =
        rw (w.apps.rows-remove, w.logs.rows-remove)
          (LogsSound-cascade job_id (w.apps.rows s.apps_table) (w.logs.rows s.logs_table) h.logs);
  }

  -- an event handled
  pub IsSound-hooks :
      (s : Store w) (t : HooksStore w) (events : List ApplicationStatusChangedEvent)
      → IsSound s
      → HooksFollow w.users w.jobs w.apps w.logs w.post w.sign (hooks_part w s) t
      → IsSound (hooks_done w (record s { events = events }) t)
  unfolding hooks_done
  IsSound-hooks s t events h f =
      rw (f.same_users, f.same_jobs, f.same_apps)
        (record {
          users = h.users;
          jobs = h.jobs;
          apps =
              AppsSound-Keeps w.apps w.jobs (users_of s) (users_of s) (apps_part w s) _ h.apps
                (λ i k. k) (λ i k. k) refl;
          tokens = h.tokens;
          logs = f.logs_sound;
        })
