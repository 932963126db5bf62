-- ===== src/Api/Marked.antt =====
-- A blacklisted identifier stays blacklisted, whatever is asked of the server.
use job_application_api.Prelude.{ℕ, String, ◌≡◌, refl, inl, inr, List, [], ◌∷◌, Bool-cases}
use job_application_api.Exec.{Exec, ok, err, Result}
use job_application_api.Users.{Profile, profile}
use job_application_api.Applications.{ApplicationStatusChangedEvent}
use job_application_api.Auth.Blacklist.{
  ExpireAt, login-IsMarked, logout-IsMarked, register-IsMarked, refresh-IsMarked,
}
use job_application_api.Auth.Blacklist
use job_application_api.Http.{Handled}
use job_application_api.Api.{
  PublicRequest, register, login, refresh, find_jobs, find_job, GuardedRequest, logout, create_job,
  update_job, remove_job, find_applications, find_mine, apply, update_status, find_users,
  update_role, register_webhook, find_logs, Request, public, guarded, Backend, Call, Step, calls,
  delivers, access_token, Body, PageMeta,
}
use job_application_api.Api.Routes.{
  remove_job_route, Store, cascade, cascaded, on_users, on_jobs, on_auth, on_apps, auth_part,
  returns, by_id, handle_public, handle_guarded,
}
use job_application_api.Api.Serve.{is_valid, serve, hooks_done, deliver_event, deliver_events, run}
use job_application_api.Api.Access.{serve_gate, stranger, outsider, malformed, handled}
use job_application_api.Api.Tables.{returns_state, answered_state, by_id_cases}

module _ (w : Backend) (jti : String) (exp : ℕ) where
  abbrev pub IsMarked : Store w → Type 0
  IsMarked s = Blacklist.IsMarked w.users w.tokens w.redis w.crypto jti exp s.cache

  by_returns :
      {A : Type 0} (f : A → Handled Body PageMeta) (m : Exec (Store w) A) (s : Store w)
      → IsMarked (m s).1
      → IsMarked (returns w f m s).1
  by_returns f m s h = rw returns_state h

  -- a service with an id that leaves the cache alone
  by_query :
      {A : Type 0} (f : A → Handled Body PageMeta) (id : String) (m : Exec (Store w) A)
      (s : Store w)
      → (m s).1.cache ≡ s.cache
      → IsMarked s
      → IsMarked (returns w f (by_id w id m) s).1
  by_query f id m s same h =
      by_returns f (by_id w id m) s
        (elim (by_id_cases w id m s) [ inl e ↦ rw (e, same) h | inr e ↦ rw e h ])

  cascaded_cache :
      (id : String) (r : Result String × Store w) → (cascaded w id r).1.cache ≡ r.1.cache
  unfolding cascaded cascade
  cascaded_cache id (ok m, s) = refl
  cascaded_cache id (err f, s) = refl

  public-IsMarked :
      (c : Call) (r : PublicRequest) (s : Store w) → IsMarked s → IsMarked (handle_public w c r s).1
  unfolding handle_public on_auth on_jobs
  public-IsMarked c (register dto) s h =
      by_returns _ _ s
        (register-IsMarked w.users w.tokens w.redis w.crypto jti exp dto c.env (auth_part w s) h)
  public-IsMarked c (login dto) s h = by_returns _ _ s (
      login-IsMarked w.users w.tokens w.redis w.crypto jti exp dto.email dto.password c.env
        (auth_part w s) h)
  public-IsMarked c (refresh token) s h =
      by_returns _ _ s
        (refresh-IsMarked w.users w.tokens w.redis w.crypto jti exp token c.env (auth_part w s) h)
  public-IsMarked c (find_jobs query) s h = h
  public-IsMarked c (find_job id) s h = by_query _ id _ s refl h

  module _ (unique : ExpireAt w.users w.tokens w.redis w.crypto jti exp) where
    guarded-IsMarked :
        (c : Call) (r : GuardedRequest) (p : Profile) (s : Store w)
        → IsMarked s
        → IsMarked (handle_guarded w c r p s).1
    unfolding handle_guarded on_auth on_jobs on_apps on_users remove_job_route
    guarded-IsMarked c logout p s h = by_returns _ _ s (
        logout-IsMarked w.users w.tokens w.redis w.crypto jti exp unique p.id
          (access_token c.authorization) c.env (auth_part w s) h)
    guarded-IsMarked c (create_job dto) p s h = by_returns _ _ s h
    guarded-IsMarked c (update_job id dto) p s h = by_query _ id _ s refl h
    guarded-IsMarked c (remove_job id) p s h = by_query _ id _ s (cascaded_cache id _) h
    guarded-IsMarked c (find_applications query) p s h = h
    guarded-IsMarked c (find_mine query) p s h = h
    guarded-IsMarked c (apply job_id cover_letter) p s h = by_query _ job_id _ s refl h
    guarded-IsMarked c (update_status id status) p s h = by_query _ id _ s refl h
    guarded-IsMarked c find_users p s h = h
    guarded-IsMarked c (update_role id role) p s h = by_query _ id _ s refl h
    guarded-IsMarked c (register_webhook url) p s h = by_returns _ _ s h
    guarded-IsMarked c (find_logs query) p s h = by_returns _ _ s h

    by_gate :
        (c : Call) (r : GuardedRequest) (s : Store w)
        → IsMarked s
        → IsMarked (serve w (record c { request = guarded r }) s).1
    by_gate c r s h = elim (serve_gate w c s r) [
      | stranger _ e ↦ rw e h
      | outsider _ _ _ e ↦ rw e h
      | malformed _ _ _ _ e ↦ rw e h
      | handled u _ _ _ e ↦ rw (e, answered_state) (guarded-IsMarked _ r (profile u) s h)
    ]

    served-IsMarked :
        (c : Call) (r : Request) (s : Store w)
        → IsMarked s
        → IsMarked (serve w (record c { request = r }) s).1
    unfolding serve
    served-IsMarked c (public r) s h = elim (Bool-cases (is_valid w (public r))) [
      | inl e ↦ rw (e, answered_state) (public-IsMarked _ r s h)
      | inr e ↦ rw e h
    ]
    served-IsMarked c (guarded r) s h = by_gate c r s h

    delivered-IsMarked :
        (es : List ApplicationStatusChangedEvent) (s : Store w)
        → IsMarked s
        → IsMarked (deliver_events w es s)
    unfolding deliver_events hooks_done
    delivered-IsMarked [] s h = h
    delivered-IsMarked (e ∷ es) s h = h

    turn-IsMarked : (s : Store w) → IsMarked s → IsMarked (deliver_event w s)
    unfolding deliver_event
    turn-IsMarked s h = delivered-IsMarked s.events s h

    pub run-IsMarked : (steps : List Step) (s : Store w) → IsMarked s → IsMarked (run w steps s)
    unfolding run
    run-IsMarked [] s h = h
    run-IsMarked (calls c ∷ steps) s h =
        run-IsMarked steps (serve w c s).1 (served-IsMarked c c.request s h)
    run-IsMarked (delivers ∷ steps) s h = run-IsMarked steps (deliver_event w s) (turn-IsMarked s h)
