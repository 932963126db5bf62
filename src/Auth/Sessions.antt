-- ===== src/Auth/Sessions.antt =====
-- How revoking and issuing change the number of active refresh tokens of each user.
use job_application_api.Prelude.{
  ◌+◌, ◌≤◌, String, ◌≡◌, refl, sym, ◌∙◌, inl, inr, Bool, true, false, ◌&&◌, List, [], ◌∷◌, ◌++◌,
  tally, ◌==◌, eq_iff, eq_refl, arith, if◌then◌else◌, Bool-cases, Option-cases,
}
use job_application_api.Exec.{Result, ok}
use job_application_api.Repository.{Repository}
use job_application_api.Repository.Rows.{
  In, rewrite, tally-In, tally-and-le, tally-and_unique, rewrite_unique,
}
use job_application_api.Redis.{Redis}
use job_application_api.Users
use job_application_api.Users.{User, find_by_id}
use job_application_api.Tokens.{
  RefreshToken, clash, Crypto, Surroundings, Tokens, active, revoke, of_user, has_id,
}
use job_application_api.Auth.{Store, new_token, generate_tokens, save_revoked, revoke_family}

active-revoke : (user : String) (t : RefreshToken) → active user (revoke t) ≡ false
active-revoke user t = elim (Bool-cases (t.user == user)) [ inl e ↦ rw e refl | inr e ↦ rw e refl ]

-- A live token is active for its owner only.
pub active-owner :
    (t : RefreshToken) (owner user : String)
    → t.user ≡ owner
    → t.revoked ≡ false
    → active user t ≡ (owner == user)
active-owner t owner user same live =
    rw (same, live) (elim (Bool-cases (owner == user)) [ inl e ↦ rw e refl | inr e ↦ rw e refl ])

-- A revocation takes the rows it touches from the count of active ones.
tally-active-rewrite :
    (user : String) (p : RefreshToken → Bool) (ts : List RefreshToken)
    → tally (active user) (rewrite p revoke ts) + tally (λ t. p t && active user t) ts
      ≡ tally (active user) ts
tally-active-rewrite user p [] = refl
tally-active-rewrite user p (t ∷ ts) =
    ground (arith, active-revoke user t, tally-active-rewrite user p ts)

tally-family :
    (user other : String) (ts : List RefreshToken)
    → (user == other) ≡ false
    → tally (λ t. of_user user t && active other t) ts ≡ 0
tally-family user other [] apart = refl
tally-family user other (t ∷ ts) apart = elim (Bool-cases (t.user == user)) [
  | inl e ↦
      let u : t.user ≡ user = (eq_iff _ _).0 e in
      let k : (t.user == other) ≡ false = rw u apart in rw (e, k) (tally-family user other ts apart)
  | inr e ↦ rw e (tally-family user other ts apart)
]

tally-own :
    (user : String) (ts : List RefreshToken)
    → tally (λ t. of_user user t && active user t) ts ≡ tally (active user) ts
tally-own user [] = refl
tally-own user (t ∷ ts) = ground (arith, tally-own user ts)

pub tally-clash : (r : RefreshToken) (ts : List RefreshToken) → tally (clash r) ts ≡ 0
tally-clash r [] = refl
tally-clash r (t ∷ ts) = tally-clash r ts

abbrev pub HasUniqueIds : List RefreshToken → Type 0
HasUniqueIds ts = (i : String) → tally (has_id i) ts ≤ 1

module _ (users : Repository User Users.clash) (tokens : Repository RefreshToken clash)
    (redis : Redis) (crypto : Crypto) where
  abbrev pub S : Type 0
  S = Store users tokens redis crypto

  abbrev pub rows : S → List RefreshToken
  rows s = tokens.rows s.tokens_table

  -- the call returned tokens, and stored one active row for the user more, with the hash of the
  -- refresh token
  abbrev pub Issues : String → Surroundings → S → Result Tokens × S → Type 0
  Issues user env s out =
      (row : RefreshToken) × (t : Tokens) × (out.0 ≡ ok t)
      × (rows out.1 ≡ rows s ++ row ∷ [])
      × (row.user ≡ user)
      × (row.revoked ≡ false)
      × (row.token_hash ≡ crypto.hash env.salt t.refresh_token)

  pub generate_tokens_lem :
      (user email : String) (role : Users.UserRole) (env : Surroundings) (s : S)
      → Issues user env s (generate_tokens users tokens redis crypto user email role env s)
  unfolding generate_tokens new_token
  generate_tokens_lem user email role env s =
      let row =
        new_token users tokens redis crypto user (crypto.sign_refresh user env.now) env
          s.tokens_table in
      let r : Tokens = record {
        access_token = crypto.sign_access user email role env.uuid env.now;
        refresh_token = crypto.sign_refresh user env.now;
      } in
      elim (Option-cases (tokens.insert row s.tokens_table)) [
        | inl e ↦ absurd (tokens.insert_clashes row s.tokens_table e (tally-clash row (rows s)))
        | inr (t, e) ↦
            (row, r, rw e refl, rw e (tokens.rows-insert row s.tokens_table t e), refl, refl, refl)
      ]

  pub generate_tokens_cache :
      (user email : String) (role : Users.UserRole) (env : Surroundings) (s : S)
      → (generate_tokens users tokens redis crypto user email role env s).1.cache ≡ s.cache
  unfolding generate_tokens
  generate_tokens_cache user email role env s =
      elim (Option-cases (
        tokens.insert
          (new_token users tokens redis crypto user (crypto.sign_refresh user env.now) env
            s.tokens_table)
          s.tokens_table)) [ inl e ↦ rw e refl | inr (t, e) ↦ rw e refl ]

  pub revoke_family_lem :
      (user other : String) (s : S)
      → tally (active other) (rows (revoke_family users tokens redis crypto user s).1)
        ≡ (if user == other then 0 else tally (active other) (rows s))
  unfolding revoke_family
  revoke_family_lem user other s = rw tokens.rows-update (elim (Bool-cases (user == other)) [
    | inl e ↦
        let same = (eq_iff _ _).0 e in
        rw (e, sym same)
          (ground
            (arith, tally-active-rewrite user (of_user user) (rows s), tally-own user (rows s)))
    | inr e ↦ rw e (
        ground (
          arith,
          tally-active-rewrite other (of_user user) (rows s),
          tally-family user other (rows s) e,
        ))
  ])

  module _ (stored : RefreshToken) (s : S) (there : In stored (rows s))
      (unique : HasUniqueIds (rows s)) where
    pub rows-save_revoked :
        rows (save_revoked users tokens redis crypto stored s).1
        ≡ rewrite (has_id stored.id) revoke (rows s)
    unfolding save_revoked
    rows-save_revoked =
        tokens.rows-update (has_id stored.id) (λ _. revoke stored) s.tokens_table
        ∙ rewrite_unique (has_id stored.id) (λ _. revoke stored) revoke stored (rows s) there
            (eq_refl stored.id) refl (unique stored.id)

    pub save_revoked_own :
        (user : String)
        → active user stored ≡ true
        → tally (active user) (rows (save_revoked users tokens redis crypto stored s).1) + 1
          ≡ tally (active user) (rows s)
    save_revoked_own user live =
        let both : 1 ≤ tally (λ t. has_id stored.id t && active user t) (rows s) =
          tally-In (λ t. has_id stored.id t && active user t) stored (rows s) there
            (rw (eq_refl stored.id) live) in
        rw rows-save_revoked (
          omega (
            arith,
            both,
            unique stored.id,
            tally-and-le (has_id stored.id) (active user) (rows s),
            tally-active-rewrite user (has_id stored.id) (rows s),
          ))

    pub save_revoked_other :
        (user : String)
        → active user stored ≡ false
        → tally (active user) (rows (save_revoked users tokens redis crypto stored s).1)
          ≡ tally (active user) (rows s)
    save_revoked_other user dead = rw rows-save_revoked (
        omega (
          arith,
          tally-and_unique (has_id stored.id) (active user) stored (rows s) there
              (eq_refl stored.id) dead (unique stored.id),
          tally-active-rewrite user (has_id stored.id) (rows s),
        ))
