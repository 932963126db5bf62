-- ===== src/Http/Responses.antt =====
-- What a client learns from a response, and who passes the roles guard.
use job_application_api.Prelude.{
  ℕ, ◌≤◌, ◌≡◌, refl, ◌↔◌, ◌⊎◌, inl, inr, true, Option, none, some, List, [], ◌∷◌, arith, Bool-cases,
}
use job_application_api.Repository.Rows.{In}
use job_application_api.Users.{UserRole, same_role}
use job_application_api.Http.{
  includes_role, can_activate, Thrown, with_text, with_object, other, internal_message, catch,
}

same_role_iff : (a b : UserRole) → (same_role a b ≡ true) ↔ (a ≡ b)
same_role_iff a b = ground arith

includes_role_iff :
    (role : UserRole) (roles : List UserRole)
    → (includes_role roles (some role) ≡ true) ↔ In role roles
includes_role_iff role [] = (λ h. cc, λ m. absurd m)
includes_role_iff role (r ∷ roles) =
    let rest = includes_role_iff role roles in
    let this = same_role_iff r role in
    elim (Bool-cases (same_role r role)) [
      | inl e ↦ (λ h. inl (this.0 e), λ m. rw e refl)
      | inr e ↦ (
        λ h. inr (rest.0 (rw e at h)),
        λ m. elim m [
          | inl same ↦ let bad : same_role r role ≡ true = this.1 same in cc
          | inr there ↦ rw e (rest.1 there)
        ],
      )
    ]

-- the status of what was thrown
abbrev pub status_of : Thrown → ℕ
status_of (with_text status m) = status
status_of (with_object status code m) = status
status_of other = 500

-- A response with a status from 500 on has one message, whatever was thrown; its status is that of
-- the exception, or 500 for any other value.
pub catch_hides :
    (t : Thrown)
    → 500 ≤ status_of t
    → ((catch t).message ≡ some internal_message) × ((catch t).status_code ≡ status_of t)
unfolding catch
catch_hides (with_text status m) h = ground arith
catch_hides (with_object status code m) h = ground arith
catch_hides other h = (refl, refl)

-- A route that requires roles lets through exactly the users with one of them, and nobody without
-- a role; a route that requires none lets everybody through.
pub can_activate_iff :
    (required : Option (List UserRole)) (role : Option UserRole)
    → (can_activate required role ≡ true) ↔ (
        (required ≡ none)
        ⊎ (required ≡ some [])
        ⊎ ((roles : List UserRole) × (r : UserRole) × (required ≡ some roles)
            × (role ≡ some r)
            × In r roles))
unfolding can_activate
can_activate_iff none role = (λ h. inl refl, λ m. refl)
can_activate_iff (some []) role = (λ h. inr (inl refl), λ m. refl)
can_activate_iff (some (x ∷ roles)) none =
    (λ h. cc, λ m. elim m [ inl e ↦ cc | inr (inl e) ↦ cc | inr (inr (rs, r, e, f, i)) ↦ cc ])
can_activate_iff (some (x ∷ roles)) (some r) = (
  λ h. inr (inr (x ∷ roles, r, refl, refl, (includes_role_iff r (x ∷ roles)).0 h)),
  λ m. elim m [
    | inl e ↦ cc
    | inr (inl e) ↦ let bad : x ∷ roles ≡ [] = cc in cc
    | inr (inr (rs, q, e, f, i)) ↦
        let same_roles : rs ≡ x ∷ roles = cc in
        let same : q ≡ r = cc in (includes_role_iff r (x ∷ roles)).1 (rw (same, same_roles) at i)
  ],
)
