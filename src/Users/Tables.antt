-- ===== src/Users/Tables.antt =====
-- What the calls of the services keep of the table of users.
use job_application_api.Prelude.{
  ◌≤◌, String, Bool, ◌==◌, ◌≡◌, refl, inl, inr, List, [], ◌∷◌, ◌++◌, tally, arith,
}
use job_application_api.Exec.{Result-cases}
use job_application_api.Repository.{Repository}
use job_application_api.Repository.Rows.{rewrite, tally-append, tally-rewrite_same}
use job_application_api.Repository.Refs.{
  HasKeys, Keeps, HasKeys-append, HasKeys-rewrite, Keeps-append, Keeps-rewrite,
}
use job_application_api.Users.{
  UserRole, super_admin, User, clash, has_id, has_role, update_role, update_webhook_url,
}
use job_application_api.Users.Roles.{
  set_role, update_role_failure, update_role_success, update_role-admins,
}
use job_application_api.Users.Addresses.{set_address, update_webhook_url_outcome}

-- ids and emails are unique, and there is an administrator
pub record UsersSound (us : List User) : Type 0 where
  pub user_keys : HasKeys (λ u. u.id) us
  pub emails : HasKeys (λ u. u.email) us
  pub some_admin : 1 ≤ tally (has_role super_admin) us

-- what a step leaves of the table: it is in order, and no id is lost
abbrev pub Follows : List User → List User → Type 0
Follows us vs = UsersSound vs × Keeps (λ u. u.id) us vs

pub UsersSound-append :
    (us : List User) (u : User)
    → UsersSound us
    → tally (has_id u.id) us ≡ 0
    → tally (λ v. v.email == u.email) us ≡ 0
    → Follows us (us ++ u ∷ [])
UsersSound-append us u h new_id new_email = (
  record {
    user_keys = HasKeys-append (λ u. u.id) u us h.user_keys new_id;
    emails = HasKeys-append (λ u. u.email) u us h.emails new_email;
    some_admin = rw tally-append (omega (arith, h.some_admin));
  },
  Keeps-append (λ u. u.id) u us,
)

-- a change of columns that are no key
UsersSound-rewrite :
    (us : List User) (p : User → Bool) (f : User → User)
    → ((u : User) → (f u).id ≡ u.id)
    → ((u : User) → (f u).email ≡ u.email)
    → UsersSound us
    → 1 ≤ tally (has_role super_admin) (rewrite p f us)
    → Follows us (rewrite p f us)
UsersSound-rewrite us p f id email h admin = (
  record {
    user_keys = HasKeys-rewrite (λ u. u.id) p f id us h.user_keys;
    emails = HasKeys-rewrite (λ u. u.email) p f email us h.emails;
    some_admin = admin;
  },
  Keeps-rewrite (λ u. u.id) p f id us,
)

module _ (users : Repository User clash) (s : users.State) (h : UsersSound (users.rows s)) where
  pub update_role-Follows :
      (id : String) (role : UserRole) (by : String)
      → Follows (users.rows s) (users.rows (update_role users id role by s).1)
  update_role-Follows id role by = elim (Result-cases (update_role users id role by s).0) [
    | inl (f, e) ↦ rw (update_role_failure users id role by s f e) (h, λ i k. k)
    | inr (p, e) ↦
        let (_, _, _, rows) = update_role_success users id role by s p h.user_keys e in
        let admin = update_role-admins users id role by s h.user_keys h.some_admin in
        rw rows (
          UsersSound-rewrite (users.rows s) (has_id id) (set_role role) (λ _. refl) (λ _. refl) h
            (rw rows at admin))
  ]

  pub update_webhook_url-Follows :
      (id url : String) → Follows (users.rows s) (users.rows (update_webhook_url users id url s).1)
  update_webhook_url-Follows id url = elim (update_webhook_url_outcome users id url s h.user_keys) [
    | inl (e, _) ↦ rw e (h, λ i k. k)
    | inr (_, _, _, rows) ↦ rw rows (
        UsersSound-rewrite (users.rows s) (has_id id) (set_address url) (λ _. refl) (λ _. refl) h
          (rw (tally-rewrite_same (has_id id) (set_address url) (has_role super_admin) (λ _. refl))
            h.some_admin))
  ]
