-- ===== src/Api/Serve.antt =====
-- A request through the guards, the validation, its handler and the answer.
use job_application_api.Prelude.{Bool, true, Option, none, some, List, [], ◌∷◌, if◌then◌else◌}
use job_application_api.Exec.{Exec, Result, ok, err, http, throw}
use job_application_api.Users.{Profile}
use job_application_api.Applications.{ApplicationStatusChangedEvent}
use job_application_api.Auth
use job_application_api.Auth.{invalid_token}
use job_application_api.Webhooks
use job_application_api.Webhooks.{Delivery}
use job_application_api.Http.{
  can_activate, Thrown, with_object, texts, catch, thrown, Handled, intercept,
}
use job_application_api.Dtos.{
  is_page, is_register, is_login, is_create_job, is_update_job, is_create_application,
  is_register_webhook,
}
use job_application_api.Api.{
  AccessClaims, register, login, find_jobs, GuardedRequest, create_job, update_job,
  find_applications, find_mine, apply, register_webhook, Request, public, guarded, Backend, Call,
  Step, calls, delivers, required_roles, Body, PageMeta, Response, status_of, forbidden,
}
use job_application_api.Api.Routes.{
  Store, HooksStore, on_auth, hooks_part, handle_public, handle_guarded,
}

module _ (w : Backend) where
  -- the validation of what the handler takes
  unfoldable pub is_valid : Request → Bool
  is_valid (public (register dto)) = is_register w.checks dto
  is_valid (public (login dto)) = is_login w.checks dto
  is_valid (public (find_jobs query)) = is_page query.page query.limit
  is_valid (guarded (create_job dto)) = is_create_job w.checks dto
  is_valid (guarded (update_job id dto)) = is_update_job w.checks dto
  is_valid (guarded (find_applications query)) = is_page query.page query.limit
  is_valid (guarded (find_mine query)) = is_page query.page query.limit
  is_valid (guarded (apply job_id cover_letter)) = is_create_application w.checks cover_letter
  is_valid (guarded (register_webhook url)) = is_register_webhook w.checks url
  is_valid (public r) = true
  is_valid (guarded r) = true

  -- a request that was refused with an exception, or handled
  pub data Answered : Type 0 where
    rejected : Thrown → Answered
    accepted : Handled Body PageMeta → Answered

  unfoldable pub answered : Result (Handled Body PageMeta) × Store w → Answered × Store w
  answered (ok h, s) = (accepted h, s)
  answered (err f, s) = (rejected (thrown f), s)

  pub validated : Call → Exec (Store w) (Handled Body PageMeta) → Store w → Answered × Store w
  unfolding answered
  validated c handler s =
      if is_valid c.request
      then answered (handler s)
      else (rejected (with_object 400 none (texts (w.violations c.request))), s)

  -- `JwtAuthGuard`: the account of the token of the header
  unfoldable pub claims_of : Call → Option AccessClaims
  claims_of c = elim c.authorization [
    | none ↦ none
    | some header ↦ elim (w.bearer header) [
      | none ↦ none
      | some token ↦ w.verify_access token c.env.now
    ]
  ]

  pub admitted : Call → Option AccessClaims → Exec (Store w) Profile
  admitted c none = throw invalid_token
  admitted c (some claims) =
      on_auth w
        (Auth.authenticate w.users w.tokens w.redis w.crypto claims.sub claims.jti c.env.now)

  unfoldable pub jwt_guard : Call → Exec (Store w) Profile
  unfolding claims_of admitted
  jwt_guard c = admitted c (claims_of c)

  -- `RolesGuard` and what comes behind it
  pub with_roles : Call → GuardedRequest → Result Profile × Store w → Answered × Store w
  unfolding validated
  with_roles c r (err f, s) = (rejected (thrown f), s)
  with_roles c r (ok p, s) =
      if can_activate (required_roles r) (some p.role)
      then validated c (handle_guarded w c r p) s
      else (rejected (thrown (http forbidden)), s)

  pub route : Call → Request → Store w → Answered × Store w
  unfolding validated with_roles
  route c (public r) s = validated c (handle_public w c r) s
  route c (guarded r) s = with_roles c r (jwt_guard c s)

  -- the global filter, and the global interceptor
  unfoldable pub answer : Request → Answered → Response
  answer r (rejected t) =
      let body = catch t in
      record {
        status = body.status_code;
        answer = record { payload = none; meta = none; error = some body };
      }
  answer r (accepted h) = record { status = status_of r; answer = intercept h }

  unfoldable pub serve : Call → Store w → Response × Store w
  unfolding route answer
  serve c s = let r = route c c.request s in (answer c.request r.0, r.1)

  -- the listener of `application.status_changed` takes the first event that waits
  unfoldable pub hooks_done : Store w → HooksStore w → Store w
  hooks_done s t = record s {
    users_table = t.users_table;
    jobs_table = t.jobs_table;
    apps_table = t.apps_table;
    logs_table = t.logs_table;
    sent = t.sent;
  }

  unfoldable pub deliver_events : List ApplicationStatusChangedEvent → Store w → Store w
  unfolding hooks_done
  deliver_events [] s = s
  deliver_events (e ∷ es) s =
      hooks_done (record s { events = es })
        (Webhooks.handle_status_changed w.users w.jobs w.apps w.logs w.post w.sign e
          (hooks_part w s)).1

  unfoldable pub deliver_event : Store w → Store w
  unfolding deliver_events
  deliver_event s = deliver_events s.events s

  -- the store after requests and deliveries, whatever each of them answers
  unfoldable pub run : List Step → Store w → Store w
  run [] s = s
  run (calls c ∷ steps) s = run steps (serve c s).1
  run (delivers ∷ steps) s = run steps (deliver_event s)
