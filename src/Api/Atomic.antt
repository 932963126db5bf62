-- ===== src/Api/Atomic.antt =====
-- A request that is answered with an error has written nothing but tokens and counters.
use job_application_api.Prelude.{String, ◌≡◌, refl, ap, inl, inr, some, Bool-cases}
use job_application_api.Exec.{Exec, Failure, Result, ok, err, Result-cases}
use job_application_api.Users
use job_application_api.Users.{Profile, profile}
use job_application_api.Users.Roles.{update_role_failure}
use job_application_api.Users.Addresses.{update_webhook_url_outcome}
use job_application_api.Jobs
use job_application_api.Jobs.Tables.{find_one_state}
use job_application_api.Jobs.Ownership.{update_failure, remove_failure, create_success}
use job_application_api.Applications
use job_application_api.Applications.Apply.{apply_failure}
use job_application_api.Applications.Status.{update_status_failure}
use job_application_api.Auth
use job_application_api.Auth.Register.{register_outcome}
use job_application_api.Auth.Tables.{login-Keeps, refresh-Keeps, logout-Keeps}
use job_application_api.Http.{Handled, plain, envelope, intercept, ErrorBody}
use job_application_api.Api.{
  PublicRequest, register, login, refresh, find_jobs, find_job, GuardedRequest, logout, create_job,
  update_job, remove_job, find_applications, find_mine, apply, update_status, find_users,
  update_role, register_webhook, find_logs, Request, public, guarded, Backend, Call, Body, PageMeta,
  caller, access_token,
}
use job_application_api.Api.Routes.{
  remove_job_route, Store, AuthStore, cascaded, on_users, on_jobs, on_auth, on_apps, apps_part,
  auth_part, returns, by_id, handle_public, handle_guarded,
}
use job_application_api.Api.Serve.{answered, answer, is_valid, serve}
use job_application_api.Api.Access.{serve_gate, stranger, outsider, malformed, handled}
use job_application_api.Api.Tables.{HasFreshKeys, IsSound, by_id_cases}

module _ (w : Backend) where
  -- accounts, jobs, applications, logs, requests sent and events that wait are the same
  pub record Same (s t : Store w) : Type 0 where
    pub same_users : t.users_table ≡ s.users_table
    pub same_jobs : t.jobs_table ≡ s.jobs_table
    pub same_apps : t.apps_table ≡ s.apps_table
    pub same_logs : t.logs_table ≡ s.logs_table
    pub same_sent : t.sent ≡ s.sent
    pub same_events : t.events ≡ s.events

  unchanged : (s : Store w) → Same s s
  unchanged s = record {
    same_users = refl;
    same_jobs = refl;
    same_apps = refl;
    same_logs = refl;
    same_sent = refl;
    same_events = refl;
  }

  Same-auth :
      (s : Store w) (t : AuthStore w)
      → t.users_table ≡ s.users_table
      → Same s
          (record s { users_table = t.users_table; tokens_table = t.tokens_table; cache = t.cache })
  Same-auth s t e = record {
    same_users = e;
    same_jobs = refl;
    same_apps = refl;
    same_logs = refl;
    same_sent = refl;
    same_events = refl;
  }

  -- a call that throws leaves them the same
  abbrev IsAtomic : {A : Type 0} → Exec (Store w) A → Store w → Type 0
  IsAtomic m s = (f : Failure) → (m s).0 ≡ err f → Same s (m s).1

  by_returns :
      {A : Type 0} (g : A → Handled Body PageMeta) (m : Exec (Store w) A) (s : Store w)
      → IsAtomic m s
      → IsAtomic (returns w g m) s
  unfolding returns
  by_returns g m s h f e = elim (Result-cases (m s).0) [
    | inl (k, failed) ↦ rw failed (h k failed)
    | inr (a, done) ↦ let thrown : (returns w g m s).0 ≡ ok (g a) = rw done refl in cc
  ]

  by_id-IsAtomic :
      {A : Type 0} (id : String) (m : Exec (Store w) A) (s : Store w)
      → IsAtomic m s
      → IsAtomic (by_id w id m) s
  by_id-IsAtomic id m s h f e = elim (by_id_cases w id m s) [
    | inl same ↦ let failed : (m s).0 ≡ err f = rw same at e in rw same (h f failed)
    | inr same ↦ rw same (unchanged s)
  ]

  by_reading : {A : Type 0} (m : Exec (Store w) A) (s : Store w) → (m s).1 ≡ s → IsAtomic m s
  by_reading m s e f failed = rw e (unchanged s)

  answered-Same :
      (r : Request) (s : Store w) (x : Result (Handled Body PageMeta) × Store w) (b : ErrorBody)
      → ((f : Failure) → x.0 ≡ err f → Same s x.1)
      → (answer w r (answered w x).0).answer.error ≡ some b
      → Same s (answered w x).1
  unfolding answer answered intercept
  answered-Same r s (err f, t) b h e = h f refl
  answered-Same r s (ok (plain a), t) b h e = cc
  answered-Same r s (ok (envelope a m), t) b h e = cc

  module _ (fresh : HasFreshKeys w) where
    handle_public-IsAtomic :
        (c : Call) (r : PublicRequest) (s : Store w)
        → IsSound w s
        → IsAtomic (handle_public w c r) s
    unfolding handle_public on_auth on_jobs
    handle_public-IsAtomic c (register dto) s h = by_returns _ _ s (λ f e.
        elim (register_outcome w.users w.tokens w.redis w.crypto dto c.env (auth_part w s)) [
          | inl (out, _) ↦ Same-auth s _ (ap (λ r. r.1.users_table) out)
          | inr (_, out, _, _) ↦
              let thrown : (Auth.register w.users w.tokens w.redis w.crypto dto c.env
                    (auth_part w s)).0
                  ≡ err f =
                e in
              cc
        ])
    handle_public-IsAtomic c (login dto) s h = by_returns _ _ s (λ f e.
        Same-auth s _
          (login-Keeps w.users w.tokens w.redis w.crypto fresh.token dto.email dto.password c.env
            (auth_part w s) h.tokens).0)
    handle_public-IsAtomic c (refresh token) s h = by_returns _ _ s (λ f e.
        Same-auth s _
          (refresh-Keeps w.users w.tokens w.redis w.crypto fresh.token token c.env (auth_part w s)
            h.tokens).0)
    handle_public-IsAtomic c (find_jobs query) s h = λ f e. unchanged s
    handle_public-IsAtomic c (find_job id) s h =
        by_returns _ _ s (by_id-IsAtomic id _ s (λ f e. rw find_one_state (unchanged s)))

    handle_guarded-IsAtomic :
        (c : Call) (r : GuardedRequest) (p : Profile) (s : Store w)
        → IsSound w s
        → IsAtomic (handle_guarded w c r p) s
    unfolding handle_guarded on_auth on_jobs on_apps on_users remove_job_route cascaded
    handle_guarded-IsAtomic c logout p s h = by_returns _ _ s (λ f e.
        Same-auth s _
          (logout-Keeps w.users w.tokens w.redis w.crypto fresh.token p.id
            (access_token c.authorization) c.env (auth_part w s) h.tokens).0)
    handle_guarded-IsAtomic c (create_job dto) p s h = by_returns _ _ s (λ f e.
        let (_, done, _, _, _, _, _, _, _) = create_success w.jobs dto (caller p) s.jobs_table in
        let thrown : (Jobs.create w.jobs dto (caller p) s.jobs_table).0 ≡ err f = e in cc)
    handle_guarded-IsAtomic c (update_job id dto) p s h = by_returns _ _ s (
        by_id-IsAtomic id (on_jobs w (Jobs.update w.jobs id dto (caller p))) s
          (λ f e. rw ((update_failure w.jobs id (caller p) s.jobs_table dto f e).0) (unchanged s)))
    handle_guarded-IsAtomic c (remove_job id) p s h = by_returns _ _ s (
        by_id-IsAtomic id (λ s. cascaded w id (on_jobs w (Jobs.remove w.jobs id (caller p)) s)) s
          (λ f e. elim (Result-cases (Jobs.remove w.jobs id (caller p) s.jobs_table).0) [
            | inl (k, failed) ↦
                rw (failed, (remove_failure w.jobs id (caller p) s.jobs_table k failed).0)
                  (unchanged s)
            | inr (m, done) ↦
                let over : (cascaded w id (on_jobs w (Jobs.remove w.jobs id (caller p)) s)).0
                    ≡ ok m =
                  rw done refl in
                cc
          ]))
    handle_guarded-IsAtomic c (find_applications query) p s h = λ f e. unchanged s
    handle_guarded-IsAtomic c (find_mine query) p s h = λ f e. unchanged s
    handle_guarded-IsAtomic c (apply job_id cover_letter) p s h = by_returns _ _ s (
        by_id-IsAtomic job_id
          (on_apps w (Applications.apply w.apps w.jobs job_id cover_letter (caller p))) s
          (λ f e.
            rw ((apply_failure w.apps w.jobs job_id cover_letter (caller p) (apps_part w s) f e).0)
              (unchanged s)))
    handle_guarded-IsAtomic c (update_status id status) p s h = by_returns _ _ s (
        by_id-IsAtomic id
          (on_apps w (Applications.update_status w.apps w.jobs id status (caller p) c.timestamp)) s
          (λ f e.
            rw
              ((update_status_failure w.apps w.jobs id status (caller p) c.timestamp (apps_part w s)
                f h.apps.sound.has_jobs e).0)
              (unchanged s)))
    handle_guarded-IsAtomic c find_users p s h = λ f e. unchanged s
    handle_guarded-IsAtomic c (update_role id role) p s h = by_returns _ _ s (
        by_id-IsAtomic id (on_users w (Users.update_role w.users id role p.id)) s
          (λ f e. rw (update_role_failure w.users id role p.id s.users_table f e) (unchanged s)))
    handle_guarded-IsAtomic c (register_webhook url) p s h = by_returns _ _ s (λ f e.
        elim (update_webhook_url_outcome w.users p.id url s.users_table h.users.user_keys) [
          | inl (out, _) ↦ rw out (unchanged s)
          | inr (u, _, done, _) ↦
              let thrown : (Users.update_webhook_url w.users p.id url s.users_table).0 ≡ err f =
                e in
              cc
        ])
    handle_guarded-IsAtomic c (find_logs query) p s h = by_returns _ _ s (λ f e. unchanged s)

    public-Same :
        (c : Call) (r : PublicRequest) (s : Store w) (b : ErrorBody)
        → IsSound w s
        → (serve w (record c { request = public r }) s).0.answer.error ≡ some b
        → Same s (serve w (record c { request = public r }) s).1
    unfolding serve
    public-Same c r s b h e = elim (Bool-cases (is_valid w (public r))) [
      | inl v ↦ rw v (
          answered-Same (public r) s (handle_public w (record c { request = public r }) r s) b
            (handle_public-IsAtomic _ r s h) (rw v at e))
      | inr v ↦ rw v (unchanged s)
    ]

    guarded-Same :
        (c : Call) (r : GuardedRequest) (s : Store w) (b : ErrorBody)
        → IsSound w s
        → (serve w (record c { request = guarded r }) s).0.answer.error ≡ some b
        → Same s (serve w (record c { request = guarded r }) s).1
    guarded-Same c r s b h e = elim (serve_gate w c s r) [
      | stranger _ out ↦ rw out (unchanged s)
      | outsider _ _ _ out ↦ rw out (unchanged s)
      | malformed _ _ _ _ out ↦ rw out (unchanged s)
      | handled u _ _ _ out ↦ rw out (
          answered-Same (guarded r) s
            (handle_guarded w (record c { request = guarded r }) r (profile u) s) b
            (handle_guarded-IsAtomic _ r (profile u) s h) (rw out at e))
    ]

    served-Same :
        (c : Call) (r : Request) (s : Store w) (b : ErrorBody)
        → IsSound w s
        → (serve w (record c { request = r }) s).0.answer.error ≡ some b
        → Same s (serve w (record c { request = r }) s).1
    served-Same c (public r) s b h e = public-Same c r s b h e
    served-Same c (guarded r) s b h e = guarded-Same c r s b h e

    -- Where keys are fresh and the tables are sound, a request that is answered with an error
    -- leaves every account, job, application and log as it was, sends nothing, and emits no event.
    pub serve_error :
        (c : Call) (s : Store w) (b : ErrorBody)
        → IsSound w s
        → (serve w c s).0.answer.error ≡ some b
        → Same s (serve w c s).1
    serve_error c s b h e = served-Same c c.request s b h e
