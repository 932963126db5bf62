-- ===== src/Users/Tests.antt =====
-- Tests of role changes, and the theorems at concrete inputs.
use job_application_api.Prelude.{◌≡◌, ◌≢◌, refl, none, List, [], ◌∷◌}
use job_application_api.Exec.{http, err, forbidden_exception}
use job_application_api.Repository.{Repository}
use job_application_api.Repository.Rows.{rewrite}
use job_application_api.Repository.Keys.{unique_pair}
use job_application_api.Repository.Memory.{memory}
use job_application_api.Users.{
  super_admin, employer, applicant, User, clash, profile, has_id, update_role,
}
use job_application_api.Users.Roles.{HasUniqueIds, set_role, RoleChange, update_role_success}

abbrev table : Repository User clash
table = memory clash (λ us. "new") (λ us. 0)

abbrev ada : User
ada = record {
  id = "1";
  email = "ada@x.org";
  password_hash = "p";
  role = super_admin;
  full_name = "Ada";
  webhook_url = none;
  created_at = 1;
}

abbrev bob : User
bob = record {
  id = "2";
  email = "bob@x.org";
  password_hash = "q";
  role = applicant;
  full_name = "Bob";
  webhook_url = none;
  created_at = 2;
}

abbrev two_users : List User
two_users = ada ∷ bob ∷ []

two_users-HasUniqueIds : HasUniqueIds table two_users
two_users-HasUniqueIds = unique_pair (λ u. u.id) ada bob refl

last_admin_kept : update_role table "1" applicant "2" two_users ≡ (
  err (http (forbidden_exception "LAST_ADMIN" "Cannot demote the last super_admin.")),
  two_users,
)
unfolding update_role
last_admin_kept = refl

update_role_success_example :
    (bob.id ≢ ada.id)
    × (bob.id ≡ "2")
    × (employer ≡ employer)
    × (table.rows (update_role table "2" employer "1" two_users).1
        ≡ rewrite (has_id "2") (set_role employer) two_users)
unfolding update_role
update_role_success_example =
    update_role_success table "2" employer "1" two_users (record (profile bob) { role = employer })
      two_users-HasUniqueIds refl

abbrev demotions : List RoleChange
demotions =
    record { id = "2"; role = super_admin; by = "1" }
    ∷ record { id = "1"; role = applicant; by = "2" }
    ∷ record { id = "2"; role = applicant; by = "1" }
    ∷ []
