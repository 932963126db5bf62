-- ===== src/Auth/Blacklist.antt =====
-- What the calls of the service do to a blacklisted identifier.
use job_application_api.Prelude.{
  ℕ, ◌+◌, ◌-◌, ◌≤◌, String, ◌≡◌, refl, ap, ◌∙◌, inl, inr, false, none, some, ltb, eqb, ◌==◌, eq_iff,
  code, arith, Bool-cases, Option-cases,
}
use job_application_api.Repository.{Repository}
use job_application_api.Redis.{Redis}
use job_application_api.LoginAttempt.{key_of, record_failed_attempt, reset_attempts, is_locked}
use job_application_api.Users
use job_application_api.Users.{User}
use job_application_api.Tokens.{RefreshToken, clash, Claims, Crypto, Surroundings}
use job_application_api.Auth.{
  RegisterDto, Store, blacklist_key, register, login, refresh, logout, save_revoked, revoke_family,
}
use job_application_api.Auth.Sessions.{generate_tokens_lem, generate_tokens_cache}
use job_application_api.Auth.Login.{
  account_of, login_locked, login_unknown, login_wrong, login_right, cleared,
}
use job_application_api.Auth.Register.{register_outcome}
use job_application_api.Auth.Refresh.{
  latest, refresh_none, refresh_mismatch, refresh_stranger, refresh_known, rotated,
}
use text.Mathlib.TextLemmas.{append_cancel_left, cons-append}
use Prim.Native.String.{◌++◌ as concat}

first_code : String → ℕ
first_code String.[] = 0
first_code (String.◌∷◌ c s) = code c

first_code-concat : (p rest : String) → 1 ≤ first_code p → first_code (concat p rest) ≡ first_code p
unfolding first_code
first_code-concat String.[] rest h = absurd (omega (arith, h))
first_code-concat (String.◌∷◌ c p) rest h = rw cons-append refl

-- the two kinds of keys begin with different letters
keys_apart : (email jti : String) → (key_of email == blacklist_key jti) ≡ false
unfolding first_code
keys_apart email jti = elim (Bool-cases (key_of email == blacklist_key jti)) [
  | inl e ↦
      let letters : first_code (key_of email) ≡ first_code (blacklist_key jti) =
        ap first_code ((eq_iff _ _).0 e) in
      let l : first_code (key_of email) ≡ 108 =
        first_code-concat "login_attempts:" email (omega arith) in
      let b : first_code (blacklist_key jti) ≡ 98 =
        first_code-concat "blacklist:" jti (omega arith) in
      absurd (omega (arith, letters, l, b))
  | inr e ↦ e
]

module _ (users : Repository User Users.clash) (tokens : Repository RefreshToken clash)
    (redis : Redis) (crypto : Crypto) where
  abbrev S : Type 0
  S = Store users tokens redis crypto

  -- the identifier is blacklisted until the expiry
  abbrev pub IsMarked : String → ℕ → redis.State → Type 0
  IsMarked jti exp cache = redis.entry (blacklist_key jti) cache ≡ some ("1", some exp)

  -- tokens with this identifier expire at this time
  abbrev pub ExpireAt : String → ℕ → Type 0
  ExpireAt jti exp =
      (token : String) (claims : Claims)
      → crypto.decode token ≡ some claims
      → claims.jti ≡ some jti
      → claims.exp ≡ exp

  refresh_unverified :
      (refresh_token : String) (env : Surroundings) (s : S)
      → crypto.verify_refresh refresh_token env.now ≡ none
      → (refresh users tokens redis crypto refresh_token env s).1 ≡ s
  unfolding refresh
  refresh_unverified refresh_token env s e = rw e refl

  refresh-cache :
      (refresh_token : String) (env : Surroundings) (s : S)
      → (refresh users tokens redis crypto refresh_token env s).1.cache ≡ s.cache
  unfolding revoke_family save_revoked
  refresh-cache refresh_token env s =
      elim (Option-cases (crypto.verify_refresh refresh_token env.now)) [
        | inl e ↦ rw (refresh_unverified refresh_token env s e) refl
        | inr (sub, e) ↦
            elim (Option-cases (latest users tokens redis crypto refresh_token sub env s e)) [
              | inl lost ↦
                  rw (refresh_none users tokens redis crypto refresh_token sub env s e lost) refl
              | inr (stored, found) ↦
                  elim (Bool-cases (crypto.compare refresh_token stored.token_hash)) [
                    | inr differs ↦
                        rw
                          (refresh_mismatch users tokens redis crypto refresh_token sub env s e
                            stored found differs)
                          refl
                    | inl matches ↦
                        elim (Option-cases (users.find_one (Users.has_id sub) s.users_table)) [
                          | inl missing ↦
                              rw
                                (refresh_stranger users tokens redis crypto refresh_token sub env s
                                  e stored found matches missing)
                                refl
                          | inr (u, there) ↦
                              rw
                                (
                                  refresh_known users tokens redis crypto refresh_token sub env s e
                                      stored found matches u there,
                                  generate_tokens_cache users tokens redis crypto u.id u.email
                                      u.role env
                                      (rotated users tokens redis crypto refresh_token sub env s e
                                        stored),
                                )
                                refl
                        ]
                  ]
            ]
      ]

  module _ (jti : String) (exp : ℕ) where
    failed-IsMarked :
        (email : String) (now : ℕ) (cache : redis.State)
        → IsMarked jti exp cache
        → IsMarked jti exp (record_failed_attempt redis email now cache).1
    unfolding record_failed_attempt
    failed-IsMarked email now cache h =
        let apart = keys_apart email jti in
        let other = redis.incr_other (key_of email) (blacklist_key jti) now cache apart in
        elim (Bool-cases (eqb (redis.incr (key_of email) now cache).0 1)) [
          | inl e ↦ rw (e, redis.entry-expire, apart, other) h
          | inr e ↦ rw (e, other) h
        ]

    reset-IsMarked :
        (email : String) (cache : redis.State)
        → IsMarked jti exp cache
        → IsMarked jti exp (reset_attempts redis email cache)
    unfolding reset_attempts
    reset-IsMarked email cache h = rw (redis.entry-del, keys_apart email jti) h

    pub login-IsMarked :
        (email password : String) (env : Surroundings) (s : S)
        → IsMarked jti exp s.cache
        → IsMarked jti exp (login users tokens redis crypto email password env s).1.cache
    login-IsMarked email password env s h =
        elim (Bool-cases (is_locked redis email env.now s.cache)) [
          | inl e ↦ rw (login_locked users tokens redis crypto email password env s e) h
          | inr e ↦ elim (Option-cases (account_of users tokens redis crypto email s)) [
            | inl missing ↦
                rw (login_unknown users tokens redis crypto email password env s e missing)
                  (failed-IsMarked email env.now s.cache h)
            | inr (u, there) ↦ elim (Bool-cases (crypto.compare password u.password_hash)) [
              | inr wrong ↦
                  rw (login_wrong users tokens redis crypto email password env s e u there wrong)
                    (failed-IsMarked email env.now s.cache h)
              | inl right ↦
                  let before =
                    cleared users tokens redis crypto email password env s e u there right in
                  let (_, t, issued, _, _, _, _) =
                    generate_tokens_lem users tokens redis crypto u.id u.email u.role env before in
                  rw
                    (
                      login_right users tokens redis crypto email password env s e u there right t
                          issued,
                      generate_tokens_cache users tokens redis crypto u.id u.email u.role env
                          before,
                    )
                    (reset-IsMarked email s.cache h)
            ]
          ]
        ]

    pub logout-IsMarked :
        ExpireAt jti exp
        → (user access_token : String) (env : Surroundings) (s : S) → IsMarked jti exp s.cache
        → IsMarked jti exp (logout users tokens redis crypto user access_token env s).1.cache
    unfolding logout
    logout-IsMarked unique user access_token env s h =
        elim (Option-cases (crypto.decode access_token)) [
          | inl e ↦ rw e h
          | inr (claims, e) ↦ elim (Option-cases claims.jti) [
            | inl j ↦ rw (e, j) h
            | inr (other, j) ↦ elim (Bool-cases (other == "")) [
              | inl k ↦ rw (e, j, k) h
              | inr k ↦ elim (Bool-cases (ltb env.now claims.exp)) [
                | inr late ↦ rw (e, j, k, late) h
                | inl soon ↦ elim (Bool-cases (blacklist_key other == blacklist_key jti)) [
                  | inr apart ↦ rw (e, j, k, soon, redis.entry-set_ex, apart) h
                  | inl same ↦
                      let it : other ≡ jti =
                        append_cancel_left "blacklist:" other jti ((eq_iff _ _).0 same) in
                      let expiry : claims.exp ≡ exp =
                        unique access_token claims e (j ∙ ap some it) in
                      let whole : env.now + (claims.exp - env.now) ≡ exp = ground (arith, expiry) in
                      rw (e, j, k, soon, redis.entry-set_ex, same, whole) refl
                ]
              ]
            ]
          ]
        ]

    pub register-IsMarked :
        (dto : RegisterDto) (env : Surroundings) (s : S)
        → IsMarked jti exp s.cache
        → IsMarked jti exp (register users tokens redis crypto dto env s).1.cache
    register-IsMarked dto env s h = elim (register_outcome users tokens redis crypto dto env s) [
      | inl (e, _) ↦ rw e h
      | inr (t, e, _, _) ↦ rw e h
    ]

    pub refresh-IsMarked :
        (refresh_token : String) (env : Surroundings) (s : S)
        → IsMarked jti exp s.cache
        → IsMarked jti exp (refresh users tokens redis crypto refresh_token env s).1.cache
    refresh-IsMarked refresh_token env s h = rw (refresh-cache refresh_token env s) h
