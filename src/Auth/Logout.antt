-- ===== src/Auth/Logout.antt =====
-- After a logout, neither the access token nor a refresh token of the user is good for anything.
use job_application_api.Prelude.{
  ℕ, ◌+◌, ◌-◌, ◌≤◌, ◌<◌, String, ◌≡◌, ◌≢◌, refl, inl, inr, true, false, some, List, [], ◌∷◌, tally,
  ltb, ◌==◌, eq_iff, eq_refl, arith, Bool-cases,
}
use job_application_api.Exec.{http, err, unauthorized_exception}
use job_application_api.Repository.{Repository}
use job_application_api.Repository.Queries.{find_first_none}
use job_application_api.Repository.Rows.{rewrite}
use job_application_api.Redis.{Redis}
use job_application_api.Users
use job_application_api.Users.{User}
use job_application_api.Tokens.{RefreshToken, clash, Claims, Crypto, Surroundings, active, revoke}
use job_application_api.Auth.{
  Store, refresh_token_invalid, blacklist_key, logout, refresh, validate,
}

eq_false : (a b : String) → a ≢ b → (a == b) ≡ false
eq_false a b apart = elim (Bool-cases (a == b)) [
  | inl e ↦ absurd (apart ((eq_iff a b).0 e))
  | inr e ↦ e
]

tally_revoked :
    (user : String) (ts : List RefreshToken)
    → tally (active user) (rewrite (active user) revoke ts) ≡ 0
tally_revoked user [] = refl
tally_revoked user (t ∷ ts) = ground (arith, tally_revoked user ts)

module _ (users : Repository User Users.clash) (tokens : Repository RefreshToken clash)
    (redis : Redis) (crypto : Crypto) where
  abbrev pub S : Type 0
  S = Store users tokens redis crypto

  abbrev pub active_tokens : String → S → ℕ
  active_tokens user s = tally (active user) (tokens.rows s.tokens_table)

  module _ (user access_token : String) (env : Surroundings) (s : S) where
    abbrev pub after : S
    after = (logout users tokens redis crypto user access_token env s).1

    -- A logout leaves the user no active refresh token, and so a call of `refresh` after it with
    -- a token of this user is refused, and changes nothing.
    pub logout-refresh :
        (refresh_token : String) (later : Surroundings)
        → crypto.verify_refresh refresh_token later.now ≡ some user
        → (active_tokens user after ≡ 0)
          × (refresh users tokens redis crypto refresh_token later after
              ≡ (err (http (refresh_token_invalid "Refresh token has been revoked.")), after))
    unfolding refresh logout
    logout-refresh refresh_token later verified =
        let gone : active_tokens user after ≡ 0 = rw tokens.rows-update (tally_revoked user _) in
        (gone, rw (verified, find_first_none tokens _ (active user) after.tokens_table gone) refl)

    pub entry_blacklist :
        (claims : Claims) (jti : String)
        → crypto.decode access_token ≡ some claims
        → claims.jti ≡ some jti
        → jti ≢ ""
        → env.now < claims.exp
        → redis.entry (blacklist_key jti) after.cache ≡ some ("1", some claims.exp)
    unfolding logout
    entry_blacklist claims jti decoded has_jti nonempty lt =
        let key_false : (jti == "") ≡ false = eq_false jti "" nonempty in
        let soon : ltb env.now claims.exp ≡ true = ground arith in
        let whole : env.now + (claims.exp - env.now) ≡ claims.exp = omega arith in
        rw (decoded, has_jti, key_false, soon, redis.entry-set_ex, eq_refl, whole) refl

    -- From a logout with an access token that has an identifier until the token expires, a request
    -- with this identifier is refused as blacklisted in the state that the logout has left.
    pub logout-validate :
        (claims : Claims) (jti sub : String) (now : ℕ)
        → crypto.decode access_token ≡ some claims
        → claims.jti ≡ some jti
        → jti ≢ ""
        → env.now ≤ now
        → now < claims.exp
        → validate users tokens redis crypto sub jti now after ≡ (
          err (
              http (
                unauthorized_exception "TOKEN_BLACKLISTED"
                  "This token has been invalidated. Please log in again.")),
          after,
        )
    unfolding validate logout
    logout-validate claims jti sub now decoded has_jti nonempty le lt =
        let entry = entry_blacklist claims jti decoded has_jti nonempty (omega arith) in
        let soon : ltb now claims.exp ≡ true = ground arith in rw (redis.get_lem, entry, soon) refl
