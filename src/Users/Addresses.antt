-- ===== src/Users/Addresses.antt =====
-- `updateWebhookUrl`: whose address is set.
use job_application_api.Prelude.{
  String, ◌≡◌, refl, ◌⊎◌, inl, inr, some, tally, eq_iff, Option-cases,
}
use job_application_api.Exec.{http, ok, err, not_found_exception}
use job_application_api.Repository.{Repository}
use job_application_api.Repository.Rows.{rewrite}
use job_application_api.Repository.Saves.{rows-save}
use job_application_api.Users.{User, clash, profile, has_id, merge, update_webhook_url}
use job_application_api.Users.Roles.{HasUniqueIds}

abbrev pub set_address : String → User → User
set_address url u = record u { webhook_url = some url }

module _ (users : Repository User clash) (id url : String) (s : users.State) where
  abbrev pub Outcome : Type 0
  Outcome =
      (update_webhook_url users id url s
          ≡ (err (http (not_found_exception "USER_NOT_FOUND" "User not found.")), s))
        × (tally (has_id id) (users.rows s) ≡ 0)
      ⊎ ((u : User) × (u.id ≡ id)
          × ((update_webhook_url users id url s).0 ≡ ok (profile (set_address url u)))
          × (users.rows (update_webhook_url users id url s).1
              ≡ rewrite (has_id id) (set_address url) (users.rows s)))

  -- Where ids are unique, setting an address changes the address of the user with the given id, and
  -- nothing else of any row; where no user has it, the call is refused, and changes nothing.
  pub update_webhook_url_outcome : HasUniqueIds users s → Outcome
  unfolding update_webhook_url
  update_webhook_url_outcome unique = elim (Option-cases (users.find_one (has_id id) s)) [
    | inl missing ↦ inl (rw missing refl, users.find_one_misses (has_id id) s missing)
    | inr (u, there) ↦ inr (
      u,
      (eq_iff _ _).0 (users.find_one_passes (has_id id) s u there),
      rw there refl,
      rw there (
          rows-save users (λ r. r.id) id (set_address url) (merge (profile (set_address url u))) s u
            there (unique id) refl),
    )
  ]
