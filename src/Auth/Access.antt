-- ===== src/Auth/Access.antt =====
-- Who gets through a guarded route with a verified access token.
use job_application_api.Prelude.{
  ℕ, String, ◌≡◌, refl, ◌⊎◌, inl, inr, Bool, true, false, none, some, Bool-cases, Option-cases,
}
use job_application_api.Exec.{http, Result, ok, err}
use job_application_api.Repository.{Repository}
use job_application_api.Redis.{Redis}
use job_application_api.Users
use job_application_api.Users.{User, Profile, profile, find_by_id}
use job_application_api.Tokens.{RefreshToken, clash, Crypto}
use job_application_api.Auth.{
  Store, blacklist_key, is_blacklisted, with_users, validate, invalid_token, authenticate,
}

module _ (users : Repository User Users.clash) (tokens : Repository RefreshToken clash)
    (redis : Redis) (crypto : Crypto) (sub jti : String) (now : ℕ)
    (s : Store users tokens redis crypto) where
  abbrev pub out : Result Profile × Store users tokens redis crypto
  out = authenticate users tokens redis crypto sub jti now s

  abbrev pub refused : Bool
  refused = is_blacklisted (redis.get (blacklist_key jti) now s.cache)

  abbrev pub Outcome : Type 0
  Outcome =
      ((out ≡ (err (http invalid_token), s))
        × ((refused ≡ true) ⊎ (users.find_one (Users.has_id sub) s.users_table ≡ none)))
      ⊎ ((u : User) × (out ≡ (ok (profile u), s))
          × (refused ≡ false)
          × (users.find_one (Users.has_id sub) s.users_table ≡ some u))

  -- A request with an access token changes nothing. It is let through with the account of the
  -- token's subject, if that is there and the token's identifier is not blacklisted; every refusal,
  -- a blacklisted token and a deleted account included, reads INVALID_TOKEN.
  pub authenticate_outcome : Outcome
  unfolding authenticate validate with_users find_by_id
  authenticate_outcome = elim (Bool-cases refused) [
    | inl e ↦ inl (rw e refl, inl e)
    | inr e ↦ elim (Option-cases (users.find_one (Users.has_id sub) s.users_table)) [
      | inl missing ↦ inl (rw (e, missing) refl, inr missing)
      | inr (u, there) ↦ inr (u, rw (e, there) refl, e, there)
    ]
  ]
