-- ===== src/Users/Roles.antt =====
-- What `updateRole` guarantees: who is refused, what a success writes, and that an administrator
-- is always left.
use job_application_api.Prelude.{
  ℕ, ◌≤◌, String, ◌≡◌, ◌≢◌, refl, ◌⊎◌, inl, inr, Bool, true, false, not, ◌&&◌, none, some, List, [],
  ◌∷◌, tally, leb, ◌==◌, eq_iff, arith, Bool-cases, Option-cases,
}
use job_application_api.Exec.{Failure, http, ok, err, forbidden_exception, not_found_exception}
use job_application_api.Repository.{Repository}
use job_application_api.Repository.Rows.{
  rewrite, tally-rewrite_same, tally-rewrite-ge, tally-rewrite_gains, tally-rewrite_apart,
  tally-and_unique,
}
use job_application_api.Repository.Saves.{rows-save}
use job_application_api.Users.{
  UserRole, super_admin, is_super_admin, User, clash, Profile, profile, has_id, has_role, merge,
  update_role,
}

abbrev pub set_role : UserRole → User → User
set_role role u = record u { role = role }

-- a request of the role change endpoint: the user, the new role, and who asks
pub record RoleChange : Type 0 where
  pub id : String
  pub role : UserRole
  pub by : String

module _ (users : Repository User clash) where
  -- the primary key: one row at most has a given id
  abbrev pub HasUniqueIds : users.State → Type 0
  HasUniqueIds s = (i : String) → tally (has_id i) (users.rows s) ≤ 1

  abbrev pub admins : users.State → ℕ
  admins s = tally (has_role super_admin) (users.rows s)

  module _ (id : String) (role : UserRole) (by : String) (s : users.State) where
    -- what a success has established and written, before the row is known
    saved : User → users.State
    saved u = users.update (has_id u.id) (merge (record (profile u) { role = role })) s

    update_role_missing :
        users.find_one (has_id id) s ≡ none
        → update_role users id role by s
          ≡ (err (http (not_found_exception "USER_NOT_FOUND" "User not found.")), s)
    unfolding update_role
    update_role_missing e = ground arith

    -- the three outcomes where the user is there
    data Outcome (u : User) : Type 0 where
      own :
          u.id ≡ by
          → update_role users id role by s ≡ (
            err (
                http (
                  forbidden_exception "CANNOT_CHANGE_OWN_ROLE" "You cannot change your own role.")),
            s,
          )
          → Outcome u
      last :
          u.id ≢ by
          → u.role ≡ super_admin
          → role ≢ super_admin
          → admins s ≤ 1
          → update_role users id role by s ≡ (
            err (http (forbidden_exception "LAST_ADMIN" "Cannot demote the last super_admin.")),
            s,
          )
          → Outcome u
      done :
          u.id ≢ by
          → (is_super_admin u.role ≡ false) ⊎ (is_super_admin role ≡ true) ⊎ (2 ≤ admins s)
          → update_role users id role by s ≡ (ok (record (profile u) { role = role }), saved u)
          → Outcome u

    update_role_outcome : (u : User) → users.find_one (has_id id) s ≡ some u → Outcome u
    unfolding update_role saved
    update_role_outcome u e = elim (Bool-cases (u.id == by)) [
      | inl same ↦ own ((eq_iff _ _).0 same) (ground arith)
      | inr other ↦
          let ne : u.id ≢ by = ground (arith, eq_iff u.id by) in
          elim (Bool-cases (
            is_super_admin u.role
            && not (is_super_admin role)
            && leb (users.count (has_role super_admin) s) 1)) [
              | inl stop ↦
                  last ne (ground arith) (ground arith)
                    (ground (arith, users.count_tally (has_role super_admin) s))
                    (ground (arith, users.count_tally (has_role super_admin) s))
              | inr go ↦
                  done ne (ground (arith, users.count_tally (has_role super_admin) s))
                    (ground (arith, users.count_tally (has_role super_admin) s))
            ]
    ]

    -- the row of the user is the only one with its id, so the save changes its role and nothing
    -- else
    rows-saved :
        (u : User)
        → users.find_one (has_id id) s ≡ some u
        → HasUniqueIds s
        → users.rows (saved u) ≡ rewrite (has_id id) (set_role role) (users.rows s)
    unfolding saved
    rows-saved u e unique =
        rows-save users (λ r. r.id) id (set_role role) (merge (record (profile u) { role = role }))
          s u e (unique id) refl

    -- A call that fails has changed nothing.
    pub update_role_failure :
        (f : Failure)
        → (update_role users id role by s).0 ≡ err f
        → (update_role users id role by s).1 ≡ s
    update_role_failure f h = elim (Option-cases (users.find_one (has_id id) s)) [
      | inl missing ↦ rw (update_role_missing missing) refl
      | inr (u, there) ↦ elim (update_role_outcome u there) [
        | own _ e ↦ rw e refl
        | last _ _ _ _ e ↦ rw e refl
        | done _ _ e ↦ cc
      ]
    ]

    -- Where ids are unique, a call that succeeds was made by another user, and has changed the role
    -- of the row with the given id, and nothing else of any row.
    pub update_role_success :
        (p : Profile)
        → HasUniqueIds s
        → (update_role users id role by s).0 ≡ ok p
        → (id ≢ by)
          × (p.id ≡ id)
          × (p.role ≡ role)
          × (users.rows (update_role users id role by s).1
              ≡ rewrite (has_id id) (set_role role) (users.rows s))
    update_role_success p unique h = elim (Option-cases (users.find_one (has_id id) s)) [
      | inl missing ↦ cc (update_role_missing missing)
      | inr (u, there) ↦
          let same : u.id ≡ id = (eq_iff _ _).0 (users.find_one_passes (has_id id) s u there) in
          elim (update_role_outcome u there) [
            | own _ e ↦ cc
            | last _ _ _ _ e ↦ cc
            | done ne _ e ↦
                (rw same at ne, ground arith, ground arith, rw e (rows-saved u there unique))
          ]
    ]

    -- While there is an administrator, one is left.
    pub update_role-admins :
        HasUniqueIds s → 1 ≤ admins s → 1 ≤ admins (update_role users id role by s).1
    update_role-admins unique some_admin = elim (Option-cases (users.find_one (has_id id) s)) [
      | inl missing ↦ rw (update_role_missing missing) some_admin
      | inr (u, there) ↦ elim (update_role_outcome u there) [
        | own _ e ↦ rw e some_admin
        | last _ _ _ _ e ↦ rw e some_admin
        | done _ why e ↦ rw e (rw (rows-saved u there unique) (left u there why))
      ]
    ]
      where
        pass : User → Bool
        pass = has_role super_admin

        gained :
            is_super_admin role ≡ true
            → 1 ≤ tally pass (rewrite (has_id id) (set_role role) (users.rows s))
        gained e =
            omega
              (arith, tally-rewrite_gains (has_id id) (set_role role) pass (λ _. e) (users.rows s))

        left :
            (u : User)
            → users.find_one (has_id id) s ≡ some u
            → (is_super_admin u.role ≡ false) ⊎ (is_super_admin role ≡ true) ⊎ (2 ≤ admins s)
            → 1 ≤ tally pass (rewrite (has_id id) (set_role role) (users.rows s))
        left u there (inl other) = elim (Bool-cases (is_super_admin role)) [
          | inl raised ↦ gained raised
          | inr lowered ↦
              rw
                (tally-rewrite_apart (has_id id) (set_role role) pass (λ _. lowered) (users.rows s)
                  (tally-and_unique (has_id id) pass u (users.rows s)
                    (users.In-find_one (has_id id) s u there)
                    (users.find_one_passes (has_id id) s u there) other (unique id)))
                some_admin
        ]
        left u there (inr (inl kept)) = gained kept
        left u there (inr (inr two)) =
            omega
              (arith, unique id, tally-rewrite-ge (has_id id) (set_role role) pass (users.rows s))

    update_role-HasUniqueIds : HasUniqueIds s → HasUniqueIds (update_role users id role by s).1
    update_role-HasUniqueIds unique i = elim (Option-cases (users.find_one (has_id id) s)) [
      | inl missing ↦ rw (update_role_missing missing) (unique i)
      | inr (u, there) ↦ elim (update_role_outcome u there) [
        | own _ e ↦ rw e (unique i)
        | last _ _ _ _ e ↦ rw e (unique i)
        | done _ why e ↦ rw e (
            rw (rows-saved u there unique) (
              rw
                (tally-rewrite_same (has_id id) (set_role role) (has_id i) (λ _. refl)
                  (users.rows s))
                (unique i)))
      ]
    ]

  -- the state after a sequence of requests, whatever each of them returns
  pub role_changes : List RoleChange → users.State → users.State
  role_changes [] s = s
  role_changes (c ∷ cs) s = role_changes cs (update_role users c.id c.role c.by s).1

  -- Where ids are unique and there is an administrator, one is left after every sequence of
  -- role changes, and ids are still unique.
  pub role_changes-admins :
      (cs : List RoleChange) (s : users.State)
      → HasUniqueIds s
      → 1 ≤ admins s
      → HasUniqueIds (role_changes cs s) × (1 ≤ admins (role_changes cs s))
  unfolding role_changes
  role_changes-admins [] s unique some_admin = (unique, some_admin)
  role_changes-admins (c ∷ cs) s unique some_admin =
      role_changes-admins cs (update_role users c.id c.role c.by s).1
        (update_role-HasUniqueIds c.id c.role c.by s unique)
        (update_role-admins c.id c.role c.by s unique some_admin)
