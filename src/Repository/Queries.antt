-- ===== src/Repository/Queries.antt =====
-- What the first row of an ordered query tells of the table.
use job_application_api.Prelude.{
  ℕ, ◌≤◌, ◌≡◌, refl, inl, inr, Bool, true, not, ◌&&◌, none, some, List, [], ◌∷◌, All, tally, ltb,
  arith, Bool-cases, ◌∙◌, sym, ap,
}
use job_application_api.Repository.{Repository}
use job_application_api.Repository.Rows.{In, IsFalling, head?, tally-In}

module _ {A : Type 0} where
  pub tally-and-true : (p : A → Bool) (xs : List A) → tally (λ r. p r && true) xs ≡ tally p xs
  tally-and-true p [] = refl
  tally-and-true p (x ∷ xs) = ground (arith, tally-and-true p xs)

  tally_neither : (p : A → Bool) (xs : List A) → tally (λ r. p r && not (p r)) xs ≡ 0
  tally_neither p [] = refl
  tally_neither p (x ∷ xs) = ground (arith, tally_neither p xs)

  head-none : (xs : List A) → tally (λ _. true) xs ≡ 0 → head? xs ≡ none
  head-none [] h = refl
  head-none (x ∷ xs) h = absurd (omega arith)

  none-head : (xs : List A) (p : A → Bool) → head? xs ≡ none → tally p xs ≡ 0
  none-head [] p h = refl
  none-head (x ∷ xs) p h = cc

  In-head : (xs : List A) (r : A) → head? xs ≡ some r → In r xs
  In-head [] r h = cc
  In-head (x ∷ xs) r h = inl (ground arith)

  tally-All-le :
      (key : A → ℕ) (n : ℕ) (xs : List A)
      → All (λ y. key y ≤ n) xs
      → tally (λ y. ltb n (key y)) xs ≡ 0
  tally-All-le key n [] h = refl
  tally-All-le key n (x ∷ xs) h = ground (arith, h.0, tally-All-le key n xs h.1)

  tally-head-key :
      (key : A → ℕ) (xs : List A) (r : A)
      → IsFalling key xs
      → head? xs ≡ some r
      → tally (λ y. ltb (key r) (key y)) xs ≡ 0
  tally-head-key key [] r f h = refl
  tally-head-key key (x ∷ xs) r f h =
      let same : x ≡ r = ground arith in
      let le : All (λ y. key y ≤ key x) xs = f.0 in
      ap (λ z. tally (λ y. ltb (key z) (key y)) (x ∷ xs)) (sym same)
      ∙ ground (arith, tally-All-le key (key x) xs le)

module _ {A : Type 0} {clash : A → A → Bool} (repo : Repository A clash) (key : A → ℕ)
    (p : A → Bool) (s : repo.State) where
  pub ordered_passes : (r : A) → In r (repo.ordered key p s) → p r ≡ true
  ordered_passes r there =
      let none_fails : tally (λ x. not (p x)) (repo.ordered key p s) ≡ 0 =
        repo.tally-ordered key p (λ x. not (p x)) s ∙ tally_neither p (repo.rows s) in
      elim (Bool-cases (p r)) [
        | inl e ↦ e
        | inr e ↦
            absurd (omega (arith, none_fails, tally-In (λ x. not (p x)) r _ there (rw e refl)))
      ]

  pub find_first_none : tally p (repo.rows s) ≡ 0 → repo.find_first key p s ≡ none
  find_first_none h =
      repo.find_first_lem key p s
      ∙ head-none (repo.ordered key p s)
          (repo.tally-ordered key p (λ _. true) s ∙ tally-and-true p (repo.rows s) ∙ h)

  pub find_first_misses : repo.find_first key p s ≡ none → tally p (repo.rows s) ≡ 0
  find_first_misses h =
      sym (tally-and-true p (repo.rows s))
      ∙ sym (repo.tally-ordered key p (λ _. true) s)
      ∙ none-head (repo.ordered key p s) (λ _. true) (sym (repo.find_first_lem key p s) ∙ h)

  pub In-find_first : (r : A) → repo.find_first key p s ≡ some r → In r (repo.rows s)
  In-find_first r h =
      repo.In-ordered key p s r
        (In-head (repo.ordered key p s) r (sym (repo.find_first_lem key p s) ∙ h))

  pub find_first_passes : (r : A) → repo.find_first key p s ≡ some r → p r ≡ true
  find_first_passes r h =
      ordered_passes r (In-head (repo.ordered key p s) r (sym (repo.find_first_lem key p s) ∙ h))

  -- no row that passes has a greater key
  pub find_first_max :
      (r : A)
      → repo.find_first key p s ≡ some r
      → tally (λ y. p y && ltb (key r) (key y)) (repo.rows s) ≡ 0
  find_first_max r h =
      sym (repo.tally-ordered key p (λ y. ltb (key r) (key y)) s)
      ∙ tally-head-key key (repo.ordered key p s) r (repo.ordered-IsFalling key p s)
          (sym (repo.find_first_lem key p s) ∙ h)
