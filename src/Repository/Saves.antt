-- ===== src/Repository/Saves.antt =====
-- Loading a row by its key and saving it changed.
use job_application_api.Prelude.{◌≤◌, String, ◌≡◌, Bool, some, tally, ◌==◌, eq_iff, ap, ◌∙◌}
use job_application_api.Repository.{Repository}
use job_application_api.Repository.Rows.{rewrite, rewrite_unique}

module _ {A : Type 0} {clash : A → A → Bool} (repo : Repository A clash) (key : A → String) where
  abbrev at : String → A → Bool
  at i r = key r == i

  -- Where the key is unique, saving `g a` over the loaded row `a` is `f` on the row with the key,
  -- if `f` and `g` agree on `a`.
  pub rows-save :
      (i : String) (f g : A → A) (s : repo.State) (a : A)
      → repo.find_one (at i) s ≡ some a
      → tally (at i) (repo.rows s) ≤ 1
      → g a ≡ f a
      → repo.rows (repo.update (at (key a)) g s) ≡ rewrite (at i) f (repo.rows s)
  rows-save i f g s a there unique agree =
      let passes = repo.find_one_passes (at i) s a there in
      repo.rows-update (at (key a)) g s
      ∙ ap (λ k. rewrite (at k) g (repo.rows s)) ((eq_iff _ _).0 passes)
      ∙ rewrite_unique (at i) g f a (repo.rows s) (repo.In-find_one (at i) s a there) passes agree
          unique
