-- ===== src/Api/Sound.antt =====
-- What holds of all tables after any requests and deliveries.
use job_application_api.Prelude.{inl, inr, List, [], ◌∷◌, Bool-cases}
use job_application_api.Exec.{Result-cases}
use job_application_api.Repository.Refs.{Has, Has-In}
use job_application_api.Users.{Profile, profile}
use job_application_api.Users.Tables.{update_role-Follows, update_webhook_url-Follows}
use job_application_api.Jobs
use job_application_api.Jobs.Tables.{
  find_one_state, create-Follows, update-Follows, remove-JobsSound,
}
use job_application_api.Jobs.Ownership.{remove_failure, remove_success}
use job_application_api.Applications.Tables.{apply-Follows, update_status-Follows}
use job_application_api.Applications.{ApplicationStatusChangedEvent}
use job_application_api.Auth.Tables.{login-Keeps, refresh-Keeps, logout-Keeps, register-Follows}
use job_application_api.Webhooks.Tables.{handle_status_changed-Follows}
use job_application_api.Api.{
  PublicRequest, register, login, refresh, find_jobs, find_job, GuardedRequest, logout, create_job,
  update_job, remove_job, find_applications, find_mine, apply, update_status, find_users,
  update_role, register_webhook, find_logs, Request, public, guarded, Backend, Call, Step, calls,
  delivers, caller, access_token,
}
use job_application_api.Api.Routes.{
  remove_job_route, Store, cascaded, on_users, on_jobs, on_auth, on_apps, apps_part, auth_part,
  hooks_part, handle_public, handle_guarded,
}
use job_application_api.Api.Serve.{is_valid, serve, deliver_event, deliver_events, run}
use job_application_api.Api.Access.{serve_gate, stranger, outsider, malformed, handled}
use job_application_api.Api.Tables.{
  users_of, HasFreshKeys, IsSound, by_returns, by_id-IsSound, answered_state, IsSound-auth,
  IsSound-users, IsSound-tokens, IsSound-jobs, IsSound-cascade, TokensSound-Keeps, IsSound-apps,
  IsSound-hooks,
}

module _ (w : Backend) (fresh : HasFreshKeys w) where
  handle_public-IsSound :
      (c : Call) (r : PublicRequest) (s : Store w)
      → IsSound w s
      → IsSound w (handle_public w c r s).1
  unfolding handle_public on_auth on_jobs
  handle_public-IsSound c (register dto) s h =
      let (kept, same) =
        register-Follows w.users w.tokens w.redis w.crypto fresh.token dto c.env (auth_part w s)
          (fresh.user s.users_table) h.users in
      by_returns w _ _ s (
        IsSound-auth w s _ h kept (
          rw same
            (TokensSound-Keeps w (users_of w s) _ (w.tokens.rows s.tokens_table) h.tokens kept.1)))
  handle_public-IsSound c (login dto) s h = by_returns w _ _ s (
      IsSound-tokens w s _ h (
        login-Keeps w.users w.tokens w.redis w.crypto fresh.token dto.email dto.password c.env
          (auth_part w s) h.tokens))
  handle_public-IsSound c (refresh token) s h = by_returns w _ _ s (
      IsSound-tokens w s _ h (
        refresh-Keeps w.users w.tokens w.redis w.crypto fresh.token token c.env (auth_part w s)
          h.tokens))
  handle_public-IsSound c (find_jobs query) s h = h
  handle_public-IsSound c (find_job id) s h =
      by_returns w _ _ s
        (by_id-IsSound w id _ s h (IsSound-jobs w s _ h (rw find_one_state (h.jobs, λ i k. k))))

  handle_guarded-IsSound :
      (c : Call) (r : GuardedRequest) (p : Profile) (s : Store w)
      → Has (λ u. u.id) p.id (users_of w s)
      → IsSound w s
      → IsSound w (handle_guarded w c r p s).1
  unfolding handle_guarded on_auth on_jobs on_apps on_users remove_job_route cascaded
  handle_guarded-IsSound c logout p s there h = by_returns w _ _ s (
      IsSound-tokens w s _ h (
        logout-Keeps w.users w.tokens w.redis w.crypto fresh.token p.id
          (access_token c.authorization) c.env (auth_part w s) h.tokens))
  handle_guarded-IsSound c (create_job dto) p s there h = by_returns w _ _ s (
      IsSound-jobs w s _ h (
        create-Follows (users_of w s) w.jobs s.jobs_table h.jobs dto (caller p)
          (fresh.job s.jobs_table) there))
  handle_guarded-IsSound c (update_job id dto) p s there h = by_returns w _ _ s (
      by_id-IsSound w id _ s h (
        IsSound-jobs w s _ h
          (update-Follows (users_of w s) w.jobs s.jobs_table h.jobs id dto (caller p))))
  handle_guarded-IsSound c (remove_job id) p s there h = by_returns w _ _ s (
      by_id-IsSound w id _ s h
        (elim (Result-cases (Jobs.remove w.jobs id (caller p) s.jobs_table).0) [
          | inl (f, e) ↦ rw (e, (remove_failure w.jobs id (caller p) s.jobs_table f e).0) h
          | inr (m, e) ↦ rw e (
              IsSound-cascade w id s _ h
                (remove-JobsSound (users_of w s) w.jobs s.jobs_table h.jobs id (caller p))
                (remove_success w.jobs id (caller p) s.jobs_table m e).1)
        ]))
  handle_guarded-IsSound c (find_applications query) p s there h = h
  handle_guarded-IsSound c (find_mine query) p s there h = h
  handle_guarded-IsSound c (apply job_id cover_letter) p s there h = by_returns w _ _ s (
      by_id-IsSound w job_id _ s h (
        IsSound-apps w s _ h (
          apply-Follows w.apps w.jobs fresh.app (users_of w s) (apps_part w s) h.apps job_id
            cover_letter (caller p) there)))
  handle_guarded-IsSound c (update_status id status) p s there h = by_returns w _ _ s (
      by_id-IsSound w id _ s h (
        IsSound-apps w s _ h (
          update_status-Follows w.apps w.jobs fresh.app (users_of w s) (apps_part w s) h.apps id
            status (caller p) c.timestamp there)))
  handle_guarded-IsSound c find_users p s there h = h
  handle_guarded-IsSound c (update_role id role) p s there h = by_returns w _ _ s (
      by_id-IsSound w id _ s h
        (IsSound-users w s _ h (update_role-Follows w.users s.users_table h.users id role p.id)))
  handle_guarded-IsSound c (register_webhook url) p s there h =
      by_returns w _ _ s
        (IsSound-users w s _ h (update_webhook_url-Follows w.users s.users_table h.users p.id url))
  handle_guarded-IsSound c (find_logs query) p s there h = by_returns w _ _ s h

  pub public-IsSound :
      (c : Call) (r : PublicRequest) (s : Store w)
      → IsSound w s
      → IsSound w (serve w (record c { request = public r }) s).1
  unfolding serve
  public-IsSound c r s h = elim (Bool-cases (is_valid w (public r))) [
    | inl e ↦ rw (e, answered_state) (handle_public-IsSound _ r s h)
    | inr e ↦ rw e h
  ]

  pub guarded-IsSound :
      (c : Call) (r : GuardedRequest) (s : Store w)
      → IsSound w s
      → IsSound w (serve w (record c { request = guarded r }) s).1
  guarded-IsSound c r s h = elim (serve_gate w c s r) [
    | stranger _ e ↦ rw e h
    | outsider _ _ _ e ↦ rw e h
    | malformed _ _ _ _ e ↦ rw e h
    | handled u (_, _, _, there) _ _ e ↦
        rw (e, answered_state)
          (handle_guarded-IsSound _ r (profile u) s
            (Has-In (λ x. x.id) u (users_of w s) (w.users.In-find_one _ _ u there)) h)
  ]

  pub served-IsSound :
      (c : Call) (r : Request) (s : Store w)
      → IsSound w s
      → IsSound w (serve w (record c { request = r }) s).1
  served-IsSound c (public r) s h = public-IsSound c r s h
  served-IsSound c (guarded r) s h = guarded-IsSound c r s h

  deliver_events-IsSound :
      (es : List ApplicationStatusChangedEvent) (s : Store w)
      → IsSound w s
      → IsSound w (deliver_events w es s)
  unfolding deliver_events
  deliver_events-IsSound [] s h = h
  deliver_events-IsSound (e ∷ es) s h = IsSound-hooks w s _ es h (
      handle_status_changed-Follows w.users w.jobs w.apps w.logs w.post w.sign fresh.log e
        (hooks_part w s) h.logs)

  pub deliver_event-IsSound : (s : Store w) → IsSound w s → IsSound w (deliver_event w s)
  unfolding deliver_event
  deliver_event-IsSound s h = deliver_events-IsSound s.events s h

  -- If the database gives fresh keys, then after any requests and deliveries, from tables where
  -- keys and emails are unique, every foreign key that is set refers to a row, there is an
  -- administrator, and nobody has two applications to one job, all of this still holds.
  pub run-IsSound : (steps : List Step) (s : Store w) → IsSound w s → IsSound w (run w steps s)
  unfolding run
  run-IsSound [] s h = h
  run-IsSound (calls c ∷ steps) s h =
      run-IsSound steps (serve w c s).1 (served-IsSound c c.request s h)
  run-IsSound (delivers ∷ steps) s h =
      run-IsSound steps (deliver_event w s) (deliver_event-IsSound s h)
