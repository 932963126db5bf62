-- ===== src/Auth/Refresh.antt =====
-- What a refresh answers, and what it does to the sessions.
use job_application_api.Prelude.{
  ℕ, ◌+◌, String, ◌≡◌, refl, ◌∙◌, ap, ◌⊎◌, inl, inr, true, false, ◌&&◌, Option, none, some, [], ◌∷◌,
  ◌++◌, tally, ltb, ◌==◌, eq_iff, arith, if◌then◌else◌, Bool-cases, Option-cases,
}
use job_application_api.Exec.{Failure, http, Result, ok, err, not_found_exception}
use job_application_api.Repository.{Repository}
use job_application_api.Repository.Queries.{
  find_first_misses, find_first_passes, In-find_first, find_first_max,
}
use job_application_api.Repository.Rows.{In, rewrite, tally-append}
use job_application_api.Redis.{Redis}
use job_application_api.Users
use job_application_api.Users.{User, find_by_id}
use job_application_api.Tokens.{
  RefreshToken, clash, Crypto, Surroundings, Tokens, active, has_id, revoke,
}
use job_application_api.Auth.{
  Store, refresh_token_invalid, with_users, generate_tokens, refresh, save_revoked, revoke_family,
}
use job_application_api.Auth.Sessions.{
  active-owner, HasUniqueIds, rows, Issues, generate_tokens_lem, revoke_family_lem,
  rows-save_revoked, save_revoked_own, save_revoked_other,
}

pub active-parts :
    (t : RefreshToken) (user : String)
    → active user t ≡ true
    → (t.user ≡ user) × (t.revoked ≡ false)
active-parts t user h =
    let same : (t.user == user) ≡ true = ground arith in
    let live : t.revoked ≡ false = ground arith in ((eq_iff _ _).0 same, live)

module _ (users : Repository User Users.clash) (tokens : Repository RefreshToken clash)
    (redis : Redis) (crypto : Crypto) where
  abbrev pub S : Type 0
  S = Store users tokens redis crypto

  abbrev pub sessions : String → S → ℕ
  sessions user s = tally (active user) (rows users tokens redis crypto s)

  module _ (refresh_token sub : String) (env : Surroundings) (s : S)
      (verified : crypto.verify_refresh refresh_token env.now ≡ some sub) where
    abbrev pub out : Result Tokens × S
    out = refresh users tokens redis crypto refresh_token env s

    abbrev pub latest : Option RefreshToken
    latest = tokens.find_first (λ t. t.expires_at) (active sub) s.tokens_table

    abbrev pub rotated : RefreshToken → S
    rotated stored = (save_revoked users tokens redis crypto stored s).1

    pub refresh_none :
        latest ≡ none
        → out ≡ (err (http (refresh_token_invalid "Refresh token has been revoked.")), s)
    unfolding refresh
    refresh_none h = rw (verified, h) refl

    module _ (stored : RefreshToken) (found : latest ≡ some stored) where
      stored-active : active sub stored ≡ true
      stored-active =
          find_first_passes tokens (λ t. t.expires_at) (active sub) s.tokens_table stored found

      stored_live : stored.revoked ≡ false
      stored_live = ground (arith, stored-active)

      pub refresh_mismatch :
          crypto.compare refresh_token stored.token_hash ≡ false
          → out ≡ (
            err (http (refresh_token_invalid "Refresh token mismatch.")),
            (revoke_family users tokens redis crypto sub s).1,
          )
      unfolding refresh revoke_family
      refresh_mismatch differs = rw (verified, found, stored_live, differs) refl

      module _ (matches : crypto.compare refresh_token stored.token_hash ≡ true) where
        pub refresh_stranger :
            users.find_one (Users.has_id sub) s.users_table ≡ none
            → out ≡ (
              err (http (not_found_exception "USER_NOT_FOUND" "User not found.")),
              rotated stored,
            )
        unfolding refresh with_users save_revoked find_by_id
        refresh_stranger missing = rw (verified, found, stored_live, matches, missing) refl

        pub refresh_known :
            (u : User)
            → users.find_one (Users.has_id sub) s.users_table ≡ some u
            → out
              ≡ generate_tokens users tokens redis crypto u.id u.email u.role env (rotated stored)
        unfolding refresh with_users save_revoked find_by_id
        refresh_known u there = rw (verified, found, stored_live, matches, there) refl

    -- the session that a refresh replaces: the user's active one that expires last
    abbrev pub IsLatest : RefreshToken → Type 0
    IsLatest stored =
        In stored (rows users tokens redis crypto s)
        × (active sub stored ≡ true)
        × (tally (λ t. active sub t && ltb stored.expires_at t.expires_at)
              (rows users tokens redis crypto s)
            ≡ 0)

    pub latest-IsLatest : (stored : RefreshToken) → latest ≡ some stored → IsLatest stored
    latest-IsLatest stored h = (
      In-find_first tokens (λ t. t.expires_at) (active sub) s.tokens_table stored h,
      stored-active stored h,
      find_first_max tokens (λ t. t.expires_at) (active sub) s.tokens_table stored h,
    )

    -- the replaced session is revoked, and one with the hash of the new refresh token is stored
    abbrev pub Replaces : RefreshToken → Tokens → S → Type 0
    Replaces stored t after =
        (row : RefreshToken) × (rows users tokens redis crypto after
          ≡ rewrite (has_id stored.id) revoke (rows users tokens redis crypto s) ++ row ∷ [])
        × (row.user ≡ sub)
        × (row.revoked ≡ false)
        × (row.token_hash ≡ crypto.hash env.salt t.refresh_token)

    -- what a rotation has done when the user of the token is in the table
    abbrev pub Rotates : RefreshToken → Result Tokens × S → Type 0
    Rotates stored r =
        (t : Tokens) × (r.0 ≡ ok t)
        × Replaces stored t r.1
        × ((user : String) → sessions user r.1 ≡ sessions user s)

    rotates :
        (stored : RefreshToken) (id : String) (r : Result Tokens × S)
        → IsLatest stored
        → HasUniqueIds (rows users tokens redis crypto s)
        → id ≡ sub
        → Issues users tokens redis crypto id env (rotated stored) r
        → Rotates stored r
    rotates stored id r (there, live, most) unique same
          (row, t, e, rows_after, owner, fresh, hashed) =
        (
          t,
          e,
          (
            row,
            rows_after
                ∙ ap (λ x. x ++ row ∷ [])
                    (rows-save_revoked users tokens redis crypto stored s there unique),
            owner ∙ same,
            fresh,
            hashed,
          ),
          λ user. rw rows_after (
              tally-append (active user) (rows users tokens redis crypto (rotated stored))
                (row ∷ [])
              ∙ balance user),
        )
      where
        balance :
            (user : String)
            → sessions user (rotated stored) + tally (active user) (row ∷ []) ≡ sessions user s
        balance user =
            let (owned, kept) = active-parts stored sub live in
            let old = active-owner stored sub user owned kept in
            let new = active-owner row sub user (owner ∙ same) fresh in
            elim (Bool-cases (sub == user)) [
              | inl e ↦
                  rw (new, e)
                    (save_revoked_own users tokens redis crypto stored s there unique user
                      (old ∙ e))
              | inr e ↦
                  rw (new, e)
                    (omega (
                      arith,
                      save_revoked_other users tokens redis crypto stored s there unique user
                          (old ∙ e),
                    ))
            ]

    module _ (unique : HasUniqueIds (rows users tokens redis crypto s)) where
      -- the ways in which a refresh with a verified token is refused
      abbrev pub NoSession : Failure → Type 0
      NoSession f =
          (f ≡ http (refresh_token_invalid "Refresh token has been revoked."))
          × (sessions sub s ≡ 0)
          × (out.1 ≡ s)

      abbrev pub Mismatch : Failure → Type 0
      Mismatch f =
          (f ≡ http (refresh_token_invalid "Refresh token mismatch."))
          × ((stored : RefreshToken) × IsLatest stored
              × (crypto.compare refresh_token stored.token_hash ≡ false))
          × ((user : String) → sessions user out.1 ≡ (if sub == user then 0 else sessions user s))

      abbrev pub NoUser : Failure → Type 0
      NoUser f =
          (f ≡ http (not_found_exception "USER_NOT_FOUND" "User not found."))
          × (users.find_one (Users.has_id sub) s.users_table ≡ none)
          × (sessions sub out.1 + 1 ≡ sessions sub s)

      abbrev pub IsRefused : Failure → Type 0
      IsRefused f = NoSession f ⊎ Mismatch f ⊎ NoUser f

      abbrev pub IsRotated : Tokens → Type 0
      IsRotated t =
          ((stored : RefreshToken) × IsLatest stored
            × (crypto.compare refresh_token stored.token_hash ≡ true)
            × Replaces stored t out.1)
          × ((user : String) → sessions user out.1 ≡ sessions user s)

      abbrev pub Outcome : Type 0
      Outcome =
          ((f : Failure) × (out.0 ≡ err f) × IsRefused f)
          ⊎ ((t : Tokens) × (out.0 ≡ ok t) × IsRotated t)

      outcome_none : latest ≡ none → Outcome
      outcome_none h =
          let e = refresh_none h in
          inl (
            _,
            ap (λ r. r.0) e,
            inl (
              refl,
              find_first_misses tokens (λ t. t.expires_at) (active sub) s.tokens_table h,
              ap (λ r. r.1) e,
            ),
          )

      module _ (stored : RefreshToken) (found : latest ≡ some stored) where
        outcome_mismatch : crypto.compare refresh_token stored.token_hash ≡ false → Outcome
        outcome_mismatch differs =
            let e = refresh_mismatch stored found differs in
            inl (
              _,
              ap (λ r. r.0) e,
              inr (
                  inl (
                    refl,
                    (stored, latest-IsLatest stored found, differs),
                    λ user. rw e (revoke_family_lem users tokens redis crypto sub user s),
                  )),
            )

        outcome_match : crypto.compare refresh_token stored.token_hash ≡ true → Outcome
        outcome_match matches =
            let (there, live, most) = latest-IsLatest stored found in
            elim (Option-cases (users.find_one (Users.has_id sub) s.users_table)) [
              | inl missing ↦
                  let e = refresh_stranger stored found matches missing in
                  inl (
                    _,
                    ap (λ r. r.0) e,
                    inr (
                        inr (
                          refl,
                          missing,
                          rw e (
                              save_revoked_own users tokens redis crypto stored s there unique sub
                                live),
                        )),
                  )
              | inr (u, known) ↦
                  let e = refresh_known stored found matches u known in
                  let same : u.id ≡ sub =
                    (eq_iff _ _).0
                      (users.find_one_passes (Users.has_id sub) s.users_table u known) in
                  let (t, issued, replaced, balance) =
                    rotates stored u.id out (there, live, most) unique same
                      (rw e (
                        generate_tokens_lem users tokens redis crypto u.id u.email u.role env
                          (rotated stored))) in
                  inr (t, issued, ((stored, (there, live, most), matches, replaced), balance))
            ]

      outcome : Outcome
      outcome = elim (Option-cases latest) [
        | inl h ↦ outcome_none h
        | inr (stored, found) ↦ elim (Bool-cases (crypto.compare refresh_token stored.token_hash)) [
          | inl matches ↦ outcome_match stored found matches
          | inr differs ↦ outcome_mismatch stored found differs
        ]
      ]

      -- Where ids of sessions are unique, a refresh with a verified token of a user that returns
      -- tokens was called with a token that bcrypt's `compare` accepts for the hash of the user's
      -- session that expires last; it revokes this session, stores one with the hash of the new
      -- refresh token, changes no other row, and leaves every user with as many active sessions as
      -- before.
      pub refresh_success : (t : Tokens) → out.0 ≡ ok t → IsRotated t
      refresh_success t h = elim outcome [
        | inl (f, e, refused) ↦ cc
        | inr (u, issued, rotation) ↦ let same : u ≡ t = cc in rw (← same) rotation
      ]
