-- ===== src/Auth/Tables.antt =====
-- What the calls of the service do to the tables: its tokens keep their keys and their owners.
use job_application_api.Prelude.{
  String, ◌≡◌, refl, inl, inr, Bool, none, some, List, [], ◌∷◌, ◌++◌, tally, ltb, ◌==◌, Bool-cases,
  Option-cases,
}
use job_application_api.Exec.{Result}
use job_application_api.Repository.{Repository}
use job_application_api.Repository.Queries.{In-find_first}
use job_application_api.Repository.Rows.{rewrite}
use job_application_api.Repository.Refs.{
  HasKeys, Has, Has-In, HasKeys-append, HasKeys-rewrite, Refers, Refers-append, Refers-rewrite,
}
use job_application_api.Redis.{Redis}
use job_application_api.LoginAttempt.{is_locked}
use job_application_api.Users
use job_application_api.Users.{User, find_by_email}
use job_application_api.Users.Tables.{UsersSound, Follows, UsersSound-append}
use job_application_api.Tokens.{
  RefreshToken, clash, Crypto, Surroundings, Tokens, revoke, active, has_id,
}
use job_application_api.Auth.{
  RegisterDto, Store, register, new_token, generate_tokens, refresh, login, logout, save_revoked,
  revoke_family,
}
use job_application_api.Auth.Sessions.{rows, generate_tokens_lem, rows-save_revoked}
use job_application_api.Auth.Login.{
  account_of, login_locked, login_unknown, login_wrong, login_right, cleared,
}
use job_application_api.Auth.Register.{newcomer, register_outcome}
use job_application_api.Auth.Refresh.{
  latest, refresh_none, refresh_mismatch, refresh_stranger, refresh_known, rotated,
}

-- token keys are unique, and the owners of tokens are there
pub record TokensSound (us : List User) (ts : List RefreshToken) : Type 0 where
  pub token_keys : HasKeys (λ t. t.id) ts
  pub owners : Refers (λ t. t.user) (λ u. u.id) ts us

TokensSound-append :
    (us : List User) (ts : List RefreshToken) (t : RefreshToken)
    → TokensSound us ts
    → tally (has_id t.id) ts ≡ 0
    → Has (λ u. u.id) t.user us
    → TokensSound us (ts ++ t ∷ [])
TokensSound-append us ts t h fresh owner = record {
  token_keys = HasKeys-append (λ x. x.id) t ts h.token_keys fresh;
  owners = Refers-append (λ x. x.user) (λ u. u.id) t ts us h.owners owner;
}

TokensSound-revoke :
    (us : List User) (ts : List RefreshToken) (p : RefreshToken → Bool)
    → TokensSound us ts
    → TokensSound us (rewrite p revoke ts)
TokensSound-revoke us ts p h = record {
  token_keys = HasKeys-rewrite (λ x. x.id) p revoke (λ _. refl) ts h.token_keys;
  owners = Refers-rewrite (λ x. x.user) (λ u. u.id) p revoke (λ _. refl) ts us h.owners;
}

module _ (users : Repository User Users.clash) (tokens : Repository RefreshToken clash)
    (redis : Redis) (crypto : Crypto)
    (next_token_fresh : (s : tokens.State)
      → tally (has_id (tokens.next_id s)) (tokens.rows s) ≡ 0) where
  abbrev pub S : Type 0
  S = Store users tokens redis crypto

  -- the users are those of `s`, and the tokens are in order
  abbrev pub Keeps : S → S → Type 0
  Keeps s t =
      (t.users_table ≡ s.users_table)
      × TokensSound (users.rows s.users_table) (rows users tokens redis crypto t)

  abbrev pub IsSound : S → Type 0
  IsSound s = TokensSound (users.rows s.users_table) (rows users tokens redis crypto s)

  generate_tokens-Keeps :
      (id email : String) (role : Users.UserRole) (env : Surroundings) (s : S)
      → IsSound s
      → Has (λ u. u.id) id (users.rows s.users_table)
      → Keeps s (generate_tokens users tokens redis crypto id email role env s).1
  unfolding generate_tokens new_token
  generate_tokens-Keeps id email role env s h there =
      let row =
        new_token users tokens redis crypto id (crypto.sign_refresh id env.now) env
          s.tokens_table in
      elim (Option-cases (tokens.insert row s.tokens_table)) [
        | inl e ↦ rw e (refl, h)
        | inr (t, e) ↦ rw e (
          refl,
          rw (tokens.rows-insert row s.tokens_table t e) (
              TokensSound-append (users.rows s.users_table) (tokens.rows s.tokens_table) row h
                (next_token_fresh s.tokens_table) there),
        )
      ]

  module _ (user access_token : String) (env : Surroundings) (s : S) where
    abbrev logged_out : S
    logged_out = (logout users tokens redis crypto user access_token env s).1

    logout_tables :
        (logged_out.users_table ≡ s.users_table)
        × (logged_out.tokens_table ≡ tokens.update (active user) revoke s.tokens_table)
    unfolding logout
    logout_tables = elim (Option-cases (crypto.decode access_token)) [
      | inl e ↦ rw e (refl, refl)
      | inr (claims, e) ↦ elim (Option-cases claims.jti) [
        | inl j ↦ rw (e, j) (refl, refl)
        | inr (jti, j) ↦ elim (Bool-cases (jti == "")) [
          | inl h ↦ rw (e, j, h) (refl, refl)
          | inr h ↦ elim (Bool-cases (ltb env.now claims.exp)) [
            | inl k ↦ rw (e, j, h, k) (refl, refl)
            | inr k ↦ rw (e, j, h, k) (refl, refl)
          ]
        ]
      ]
    ]

    pub logout-Keeps : IsSound s → Keeps s logged_out
    unfolding logout
    logout-Keeps h = (
      logout_tables.0,
      rw (logout_tables.1, tokens.rows-update)
          (TokensSound-revoke (users.rows s.users_table) (tokens.rows s.tokens_table) (active user)
            h),
    )

  module _ (email password : String) (env : Surroundings) (s : S) where
    pub login-Keeps : IsSound s → Keeps s (login users tokens redis crypto email password env s).1
    login-Keeps h = elim (Bool-cases (is_locked redis email env.now s.cache)) [
      | inl e ↦ rw (login_locked users tokens redis crypto email password env s e) (refl, h)
      | inr e ↦ elim (Option-cases (account_of users tokens redis crypto email s)) [
        | inl missing ↦
            rw (login_unknown users tokens redis crypto email password env s e missing) (refl, h)
        | inr (u, there) ↦ elim (Bool-cases (crypto.compare password u.password_hash)) [
          | inr wrong ↦
              rw (login_wrong users tokens redis crypto email password env s e u there wrong)
                (refl, h)
          | inl right ↦
              let (_, t, issued, _, _, _, _) =
                generate_tokens_lem users tokens redis crypto u.id u.email u.role env
                  (cleared users tokens redis crypto email password env s e u there right) in
              rw
                (login_right users tokens redis crypto email password env s e u there right t
                  issued)
                (generate_tokens-Keeps u.id u.email u.role env
                  (cleared users tokens redis crypto email password env s e u there right) h
                  (Has-In (λ x. x.id) u _ (users.In-find_one _ _ u there)))
        ]
      ]
    ]

  module _ (refresh_token : String) (env : Surroundings) (s : S) where
    abbrev refreshed : Result Tokens × S
    refreshed = refresh users tokens redis crypto refresh_token env s

    refresh_unverified : crypto.verify_refresh refresh_token env.now ≡ none → refreshed.1 ≡ s
    unfolding refresh
    refresh_unverified e = rw e refl

    module _ (sub : String) (verified : crypto.verify_refresh refresh_token env.now ≡ some sub)
        (h : IsSound s) where
      revoked_family-Keeps : Keeps s (revoke_family users tokens redis crypto sub s).1
      unfolding revoke_family
      revoked_family-Keeps = (refl, rw tokens.rows-update (TokensSound-revoke _ _ _ h))

      rotated-Keeps :
          (stored : RefreshToken)
          → latest users tokens redis crypto refresh_token sub env s verified ≡ some stored
          → Keeps s (rotated users tokens redis crypto refresh_token sub env s verified stored)
      unfolding save_revoked
      rotated-Keeps stored found = (
        refl,
        rw
            (rows-save_revoked users tokens redis crypto stored s
              (In-find_first tokens _ _ s.tokens_table stored found) h.token_keys)
            (TokensSound-revoke _ _ _ h),
      )

    pub refresh-Keeps : IsSound s → Keeps s refreshed.1
    unfolding save_revoked
    refresh-Keeps h = elim (Option-cases (crypto.verify_refresh refresh_token env.now)) [
      | inl e ↦ rw (refresh_unverified e) (refl, h)
      | inr (sub, e) ↦
          elim (Option-cases (latest users tokens redis crypto refresh_token sub env s e)) [
            | inl lost ↦
                rw (refresh_none users tokens redis crypto refresh_token sub env s e lost) (refl, h)
            | inr (stored, found) ↦
                elim (Bool-cases (crypto.compare refresh_token stored.token_hash)) [
                  | inr differs ↦
                      rw
                        (refresh_mismatch users tokens redis crypto refresh_token sub env s e stored
                          found differs)
                        (revoked_family-Keeps sub e h)
                  | inl matches ↦
                      elim (Option-cases (users.find_one (Users.has_id sub) s.users_table)) [
                        | inl missing ↦
                            rw
                              (refresh_stranger users tokens redis crypto refresh_token sub env s e
                                stored found matches missing)
                              (rotated-Keeps sub e h stored found)
                        | inr (u, there) ↦
                            rw
                              (refresh_known users tokens redis crypto refresh_token sub env s e
                                stored found matches u there)
                              (generate_tokens-Keeps u.id u.email u.role env
                                (rotated users tokens redis crypto refresh_token sub env s e stored)
                                (rotated-Keeps sub e h stored found).1
                                (Has-In (λ x. x.id) u _ (users.In-find_one _ _ u there)))
                      ]
                ]
          ]
    ]

  -- the accounts are in order, no account is lost, and the tokens are the same
  pub register-Follows :
      (dto : RegisterDto) (env : Surroundings) (s : S)
      → tally (Users.has_id (users.next_id s.users_table)) (users.rows s.users_table) ≡ 0
      → UsersSound (users.rows s.users_table)
      → Follows
          (users.rows s.users_table)
          (users.rows (register users tokens redis crypto dto env s).1.users_table)
        × ((register users tokens redis crypto dto env s).1.tokens_table ≡ s.tokens_table)
  register-Follows dto env s fresh h = elim (register_outcome users tokens redis crypto dto env s) [
    | inl (e, _) ↦ rw e ((h, λ i k. k), refl)
    | inr (t, e, rows_after, new_email) ↦ rw e (
      rw rows_after (
          UsersSound-append (users.rows s.users_table)
            (newcomer users tokens redis crypto dto env s) h fresh new_email),
      refl,
    )
  ]
