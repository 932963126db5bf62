-- ===== src/Users.antt =====
-- src/users/user.entity.ts and users.service.ts: the users and the service over their table. The id
-- that a method takes is a UUID; Api.Routes says what other texts give.
pub mod Roles
pub mod Addresses
pub mod Tables
mod Tests
use job_application_api.Prelude.{
  ℕ, String, Bool, true, false, not, ◌&&◌, Option, none, some, List, [], ◌∷◌, leb, ◌==◌,
  if◌then◌else◌, map,
}
use job_application_api.Exec.{
  Exec, ok, pure, throw, throw_if, gets, modify, ◌>>=◌, ◌>>◌, forbidden_exception,
  not_found_exception,
}
use job_application_api.Repository.{Repository}
use mathlib.Core.Option

pub data UserRole : Type 0 where
  super_admin employer recruiter applicant : UserRole

-- `===` on roles
abbrev pub same_role : UserRole → UserRole → Bool
same_role super_admin super_admin = true
same_role employer employer = true
same_role recruiter recruiter = true
same_role applicant applicant = true
same_role _ _ = false

abbrev pub is_super_admin : UserRole → Bool
is_super_admin r = same_role r super_admin

pub record User : Type 0 where
  pub id : String
  pub email : String
  pub password_hash : String
  pub role : UserRole
  pub full_name : String
  pub webhook_url : Option String
  pub created_at : ℕ

-- `@Column({ unique: true }) email`; the primary key is generated
abbrev pub clash : User → User → Bool
clash u v = u.email == v.email

-- the columns that `findById` selects
pub record Profile : Type 0 where
  pub id : String
  pub email : String
  pub full_name : String
  pub role : UserRole
  pub webhook_url : Option String
  pub created_at : ℕ

abbrev pub profile : User → Profile
profile u = record {
  id = u.id;
  email = u.email;
  full_name = u.full_name;
  role = u.role;
  webhook_url = u.webhook_url;
  created_at = u.created_at;
}

-- the columns that `findByEmail` selects
pub record Credentials : Type 0 where
  pub id : String
  pub email : String
  pub full_name : String
  pub role : UserRole
  pub password_hash : String
  pub created_at : ℕ

abbrev pub credentials : User → Credentials
credentials u = record {
  id = u.id;
  email = u.email;
  full_name = u.full_name;
  role = u.role;
  password_hash = u.password_hash;
  created_at = u.created_at;
}

-- the columns that `findAll` selects
pub record Listing : Type 0 where
  pub id : String
  pub email : String
  pub full_name : String
  pub role : UserRole
  pub created_at : ℕ

abbrev pub listing : User → Listing
listing u = record {
  id = u.id;
  email = u.email;
  full_name = u.full_name;
  role = u.role;
  created_at = u.created_at;
}

abbrev pub has_id : String → User → Bool
has_id i u = u.id == i

abbrev pub has_email : String → User → Bool
has_email e u = u.email == e

abbrev pub has_role : UserRole → User → Bool
has_role r u = same_role u.role r

-- what `save` of a loaded profile writes to its row; the password hash is not among its columns
abbrev pub merge : Profile → User → User
merge p u = record u {
  email = p.email;
  full_name = p.full_name;
  role = p.role;
  webhook_url = p.webhook_url;
  created_at = p.created_at;
}

module _ (users : Repository User clash) where
  unfoldable pub find_by_email : String → Exec users.State (Option Credentials)
  find_by_email email s = (ok (Option.map credentials (users.find_one (has_email email) s)), s)

  found : Option User → Exec users.State Profile
  found none = throw (not_found_exception "USER_NOT_FOUND" "User not found.")
  found (some u) = pure (profile u)

  unfoldable pub find_by_id : String → Exec users.State Profile
  unfolding found
  find_by_id id s = found (users.find_one (has_id id) s) s

  -- in the order in which the database gives the rows
  unfoldable pub find_all : users.State → List Listing
  find_all s = map listing (users.ordered (λ u. 0) (λ u. true) s)

  save_profile : Profile → Exec users.State Profile
  save_profile p s = (ok p, users.update (has_id p.id) (merge p) s)

  -- the guard against demoting the last super_admin
  guard_last_admin : UserRole → UserRole → Exec users.State Unit
  guard_last_admin old role s =
      if is_super_admin old && not (is_super_admin role)
      then throw_if (leb (users.count (has_role super_admin) s) 1)
          (forbidden_exception "LAST_ADMIN" "Cannot demote the last super_admin.") s
      else pure tt s

  unfoldable pub update_role : String → UserRole → String → Exec users.State Profile
  unfolding find_by_id guard_last_admin save_profile
  update_role id role performed_by = do
    user ← find_by_id id
    throw_if (user.id == performed_by)
        (forbidden_exception "CANNOT_CHANGE_OWN_ROLE" "You cannot change your own role.")
    guard_last_admin user.role role
    save_profile (record user { role = role })

  unfoldable pub update_webhook_url : String → String → Exec users.State Profile
  unfolding find_by_id save_profile
  update_webhook_url id url = do
    user ← find_by_id id
    save_profile (record user { webhook_url = some url })
