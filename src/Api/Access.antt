-- ===== src/Api/Access.antt =====
-- Who reaches a handler, and what everybody else is answered.
use job_application_api.Prelude.{
  ℕ, ◌≤◌, String, ◌≡◌, refl, ◌↔◌, ◌⊎◌, inl, inr, Bool, true, false, Option, none, some, arith,
  Bool-cases, Option-cases,
}
use job_application_api.Exec.{ok, err, http}
use job_application_api.Users
use job_application_api.Users.{
  UserRole, super_admin, employer, recruiter, applicant, User, Profile, profile,
}
use job_application_api.Auth.{invalid_token, blacklist_key, is_blacklisted}
use job_application_api.Auth.Access.{authenticate_outcome}
use job_application_api.Http.{can_activate, first_text, catch}
use job_application_api.Api.{
  AccessClaims, Response, GuardedRequest, logout, create_job, update_job, remove_job,
  find_applications, find_mine, apply, update_status, find_users, update_role, register_webhook,
  find_logs, guarded, Backend, Call, required_roles,
}
use job_application_api.Api.Routes.{Store, auth_part, on_auth, handle_guarded}
use job_application_api.Api.Serve.{answered, answer, is_valid, claims_of, jwt_guard, serve}

-- a ladder of roles, as in DESIGN.md: a `+` behind a role there admits those above it
abbrev pub rank : UserRole → ℕ
rank super_admin = 3
rank employer = 2
rank recruiter = 1
rank applicant = 0

-- the least rank of each route: that of DESIGN.md but for `find_mine`, which is for applicants
-- there and takes every account here, as the decorator in the source says nothing
abbrev pub needs : GuardedRequest → ℕ
needs logout = 0
needs (create_job dto) = 2
needs (update_job id dto) = 2
needs (remove_job id) = 2
needs (find_applications query) = 1
needs (find_mine query) = 0
needs (apply job_id cover_letter) = 0
needs (update_status id status) = 1
needs find_users = 3
needs (update_role id role) = 3
needs (register_webhook url) = 2
needs (find_logs query) = 2

-- applying is for applicants only
abbrev pub May : UserRole → GuardedRequest → Type 0
May role (apply job_id cover_letter) = role ≡ applicant
May role r = needs r ≤ rank role

-- the roles that the decorators require are those of the ladder
pub required_roles_iff :
    (r : GuardedRequest) (role : UserRole)
    → (can_activate (required_roles r) (some role) ≡ true) ↔ May role r
unfolding can_activate required_roles
required_roles_iff r role = ground arith

-- a response with an error
abbrev pub refusal : ℕ → String → Option String → Response
refusal status code message = record {
  status = status;
  answer = record {
    payload = none;
    meta = none;
    error = some (record { code = code; message = message; status_code = status });
  };
}

abbrev pub unauthenticated : Response
unauthenticated = refusal 401 "INVALID_TOKEN" (some "Missing or invalid access token.")

abbrev pub not_permitted : Response
not_permitted = refusal 403 "FORBIDDEN" (some "Forbidden resource")

module _ (w : Backend) (c : Call) (s : Store w) where
  -- the account of a call: of the claims of its verified token, which is not blacklisted
  abbrev pub Authenticates : User → Type 0
  Authenticates u =
      (claims : AccessClaims) × (claims_of w c ≡ some claims)
      × (is_blacklisted (w.redis.get (blacklist_key claims.jti) c.env.now s.cache) ≡ false)
      × (w.users.find_one (Users.has_id claims.sub) s.users_table ≡ some u)

  abbrev banned : AccessClaims → Bool
  banned claims = is_blacklisted (w.redis.get (blacklist_key claims.jti) c.env.now s.cache)

  abbrev owner : AccessClaims → Option User
  owner claims = w.users.find_one (Users.has_id claims.sub) s.users_table

  nobody :
      (claims : AccessClaims)
      → claims_of w c ≡ some claims
      → (banned claims ≡ true) ⊎ (owner claims ≡ none)
      → (u : User) → Authenticates u
      → ⊥
  nobody claims e why u (other, f, clear, there) =
      let same : other ≡ claims = ground arith in
      let not_banned : banned claims ≡ false = rw same at clear in
      let known : owner claims ≡ some u = rw same at there in
      elim why [ inl h ↦ cc | inr missing ↦ cc ]

  jwt_guard_outcome :
      ((jwt_guard w c s ≡ (err (http invalid_token), s)) × ((u : User) → Authenticates u → ⊥))
      ⊎ ((u : User) × (jwt_guard w c s ≡ (ok (profile u), s)) × Authenticates u)
  unfolding jwt_guard on_auth
  jwt_guard_outcome = elim (Option-cases (claims_of w c)) [
    | inl none_there ↦ inl (rw none_there refl, λ u (claims, e, _, _). cc)
    | inr (claims, e) ↦
        elim (authenticate_outcome w.users w.tokens w.redis w.crypto claims.sub claims.jti c.env.now
          (auth_part w s)) [
            | inl (out, why) ↦ inl (rw (e, out) refl, nobody claims e why)
            | inr (u, out, clear, there) ↦ inr (u, rw (e, out) refl, (claims, e, clear, there))
          ]
  ]

  module _ (r : GuardedRequest) where
    abbrev call : Call
    call = record c { request = guarded r }

    -- what the handler made of the call
    abbrev of_handler : User → Response × Store w
    of_handler u =
        let h = answered w (handle_guarded w call r (profile u) s) in
        (answer w (guarded r) h.0, h.1)

    -- what becomes of a request to a guarded route
    pub data Gate : Type 0 where
      stranger : ((u : User) → Authenticates u → ⊥) → serve w call s ≡ (unauthenticated, s) → Gate
      outsider :
          (u : User)
          → Authenticates u
          → (May u.role r → ⊥)
          → serve w call s ≡ (not_permitted, s)
          → Gate
      malformed :
          (u : User)
          → Authenticates u
          → May u.role r
          → is_valid w (guarded r) ≡ false
          → serve w call s
            ≡ (refusal 400 "VALIDATION_ERROR" (first_text (w.violations (guarded r))), s)
          → Gate
      handled :
          (u : User)
          → Authenticates u
          → May u.role r
          → is_valid w (guarded r) ≡ true
          → serve w call s ≡ of_handler u
          → Gate

    serve_stranger :
        jwt_guard w c s ≡ (err (http invalid_token), s) → serve w call s ≡ (unauthenticated, s)
    unfolding serve catch jwt_guard
    serve_stranger e = rw e refl

    module _ (u : User) (known : jwt_guard w c s ≡ (ok (profile u), s)) where
      serve_outsider :
          can_activate (required_roles r) (some u.role) ≡ false
          → serve w call s ≡ (not_permitted, s)
      unfolding serve catch jwt_guard
      serve_outsider e = rw (known, e) refl

      module _ (may : can_activate (required_roles r) (some u.role) ≡ true) where
        serve_malformed :
            is_valid w (guarded r) ≡ false
            → serve w call s
              ≡ (refusal 400 "VALIDATION_ERROR" (first_text (w.violations (guarded r))), s)
        unfolding serve catch jwt_guard
        serve_malformed e = rw (known, may, e) refl

        serve_handled : is_valid w (guarded r) ≡ true → serve w call s ≡ of_handler u
        unfolding serve jwt_guard
        serve_handled e = rw (known, may, e) refl

    -- A request to a guarded route without a verified token of an account, or with a blacklisted
    -- one, is answered 401; from an account whose role may not use the route, 403; and with values
    -- that fail the validation, 400 with the first message. In these cases nothing is changed.
    -- Every other request is handled, for the token's account. Applying is for applicants; every
    -- account may sign out and list its own applications; listing and reviewing the others is for
    -- recruiters and above, jobs and webhooks for employers and above, users for administrators.
    pub serve_gate : Gate
    serve_gate = elim jwt_guard_outcome [
      | inl (e, nobody) ↦ stranger nobody (serve_stranger e)
      | inr (u, known, account) ↦
          elim (Bool-cases (can_activate (required_roles r) (some u.role))) [
            | inr e ↦
                outsider u account
                  (λ may.
                    let no : can_activate (required_roles r) (some u.role) ≡ true =
                      (required_roles_iff r u.role).1 may in
                    cc)
                  (serve_outsider u known e)
            | inl e ↦
                let may = (required_roles_iff r u.role).0 e in
                elim (Bool-cases (is_valid w (guarded r))) [
                  | inl v ↦ handled u account may v (serve_handled u known e v)
                  | inr v ↦ malformed u account may v (serve_malformed u known e v)
                ]
          ]
    ]
