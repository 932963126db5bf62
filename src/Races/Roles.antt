-- ===== src/Races/Roles.antt =====
-- What role changes that run alone, and two that run at the same time, leave of the administrators.
use job_application_api.Prelude.{
  ◌+◌, ◌≤◌, ◌≡◌, ◌≢◌, refl, sym, inl, inr, true, false, not, ◌&&◌, some, List, [], ◌∷◌, ◌++◌, leb,
  ◌==◌, eq_iff, eq_refl, arith, Bool-cases, Option-cases,
}
use mathlib.Core.Path.{subst}
use job_application_api.Exec.{ok}
use job_application_api.Repository.{Repository}
use job_application_api.Repository.Rows.{In, tally-In, tally-rewrite_loses, In-rewrite_other}
use job_application_api.Users.{
  UserRole, super_admin, is_super_admin, User, clash, Profile, profile, has_id, has_role, merge,
  update_role,
}
use job_application_api.Users.Roles.{RoleChange, admins}
use job_application_api.Races.{
  World, runs, Reach, here, next, RolePhase, loading, counting, writing, answered, Changing, change,
}

module _ (users : Repository User clash) where
  abbrev pub thrice : RoleChange → users.State → Changing × users.State
  thrice r s =
      let a = change users (record { request = r; phase = loading }) s in
      let b = change users a.0 a.1 in change users b.0 b.1

  -- A role change whose steps follow one another is `update_role`.
  thrice-update_role :
      (r : RoleChange) (s : users.State)
      → thrice r s ≡ (
        record { request = r; phase = answered (update_role users r.id r.role r.by s).0 },
        (update_role users r.id r.role r.by s).1,
      )
  unfolding change update_role
  thrice-update_role r s = elim (Option-cases (users.find_one (has_id r.id) s)) [
    | inl e ↦ rw e refl
    | inr (u, e) ↦ elim (Bool-cases (u.id == r.by)) [
      | inl own ↦ rw (e, own) refl
      | inr other ↦ elim (Bool-cases (is_super_admin u.role && not (is_super_admin r.role))) [
        | inr free ↦ rw (e, other, free) refl
        | inl checked ↦ elim (Bool-cases (leb (users.count (has_role super_admin) s) 1)) [
          | inl last ↦ rw (e, other, checked, last) refl
          | inr more ↦ rw (e, other, checked, more) refl
        ]
      ]
    ]
  ]

  abbrev pub W : Type 0
  W = World users.State Changing

  module _ (a b : User) (role : UserRole) (s : users.State) where
    -- each of two users takes a role from the other
    abbrev pub at_a : RolePhase → Changing
    at_a p = record { request = record { id = a.id; role = role; by = b.id }; phase = p }

    abbrev pub at_b : RolePhase → Changing
    at_b p = record { request = record { id = b.id; role = role; by = a.id }; phase = p }

    abbrev pub both : users.State → RolePhase → RolePhase → W
    both u p q = record { store = u; procs = at_a p ∷ at_b q ∷ [] }

    abbrev pub demoted : User → Profile
    demoted u = record (profile u) { role = role }

    by_step :
        (v : W) (before : List Changing) (q : Changing) (after : List Changing) (u : users.State)
        (r : Changing) (t : users.State)
        → change users q u ≡ (r, t)
        → Reach (change users) v (record { store = u; procs = before ++ q ∷ after })
        → Reach (change users) v (record { store = t; procs = before ++ r ∷ after })
    by_step v before q after u r t e path =
        subst (λ x. Reach (change users) v (record { store = x.1; procs = before ++ x.0 ∷ after }))
          e (next path (runs u before q after))

    module _ (lower : is_super_admin role ≡ false) (two : admins users s ≡ 2) where
      -- both have loaded the other's profile and counted the administrators
      loads :
          (r : RoleChange) (u : User)
          → users.find_one (has_id r.id) s ≡ some u
          → (u.id == r.by) ≡ false
          → is_super_admin u.role ≡ true
          → r.role ≡ role
          → change users (record { request = r; phase = loading }) s
            ≡ (record { request = r; phase = counting (profile u) }, s)
      unfolding change
      loads r u there other admin same = rw (there, other, admin, same, lower) refl

      counts :
          (r : RoleChange) (p : Profile)
          → change users (record { request = r; phase = counting p }) s
            ≡ (record { request = r; phase = writing (record p { role = r.role }) }, s)
      unfolding change
      counts r p = rw (users.count_tally, two) refl

      writes :
          (r : RoleChange) (p : Profile) (u : users.State)
          → change users (record { request = r; phase = writing p }) u ≡ (
            record { request = r; phase = answered (ok p) },
            users.update (has_id p.id) (merge p) u,
          )
      unfolding change
      writes r p u = refl

      abbrev pub first_written : users.State
      first_written = users.update (has_id a.id) (merge (demoted a)) s

      abbrev pub last_written : users.State
      last_written = users.update (has_id b.id) (merge (demoted b)) first_written

      loses :
          (u : User) (t : users.State)
          → In u (users.rows t)
          → u.role ≡ super_admin
          → admins users (users.update (has_id u.id) (merge (demoted u)) t) + 1 ≤ admins users t
      loses u t m admin = rw users.rows-update (
          omega (
            arith,
            tally-rewrite_loses (has_id u.id) (merge (demoted u)) (has_role super_admin)
                (λ _. lower) (users.rows t),
            tally-In (λ r. has_id u.id r && has_role super_admin r) u (users.rows t) m
                (rw (eq_refl u.id, admin) refl),
          ))

      module _ (apart : a.id ≢ b.id) (a_there : users.find_one (has_id a.id) s ≡ some a)
          (b_there : users.find_one (has_id b.id) s ≡ some b) (a_admin : a.role ≡ super_admin)
          (b_admin : b.role ≡ super_admin) where
        a_not_b : (a.id == b.id) ≡ false
        a_not_b = ground (arith, eq_iff a.id b.id)

        b_not_a : (b.id == a.id) ≡ false
        b_not_a = elim (Bool-cases (b.id == a.id)) [
          | inl e ↦ absurd (apart (sym ((eq_iff _ _).0 e)))
          | inr e ↦ e
        ]

        none_left : admins users last_written ≡ 0
        none_left =
            let b_stays : In b (users.rows first_written) = rw users.rows-update (
              In-rewrite_other (has_id a.id) (merge (demoted a)) b (users.rows s)
                (users.In-find_one _ s b b_there) b_not_a) in
            omega (
              arith,
              two,
              loses a s (users.In-find_one _ s a a_there) a_admin,
              loses b first_written b_stays b_admin,
            )

        -- If the only two administrators change each other's role at the same time, the steps can
        -- interleave so that both are answered with success, and no administrator is left.
        pub race_admins :
            Reach
              (change users)
              (both s loading loading)
              (both last_written (answered (ok (demoted a))) (answered (ok (demoted b))))
            × (admins users last_written ≡ 0)
        race_admins =
            let v = both s loading loading in
            let load_a =
              loads (record { id = a.id; role = role; by = b.id }) a a_there a_not_b
                (rw a_admin refl) refl in
            let load_b =
              loads (record { id = b.id; role = role; by = a.id }) b b_there b_not_a
                (rw b_admin refl) refl in
            let to_write_a : Changing = at_a (writing (demoted a)) in
            let to_write_b : Changing = at_b (writing (demoted b)) in
            (
              by_step v (at_a (answered (ok (demoted a))) ∷ []) to_write_b [] first_written _
                  last_written (writes _ _ _)
                  (by_step v [] to_write_a (to_write_b ∷ []) s _ first_written (writes _ _ _) (
                    by_step v (to_write_a ∷ []) (at_b (counting (profile b))) [] s to_write_b s
                      (counts _ _)
                      (by_step v (to_write_a ∷ []) (at_b loading) [] s _ s load_b (
                        by_step v [] (at_a (counting (profile a))) (at_b loading ∷ []) s to_write_a
                          s (counts _ _)
                          (by_step v [] (at_a loading) (at_b loading ∷ []) s _ s load_a here))))),
              none_left,
            )
