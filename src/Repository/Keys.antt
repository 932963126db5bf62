-- ===== src/Repository/Keys.antt =====
-- Keys of rows in memory: a generator of fresh ones, and rows with different ones.
use job_application_api.Prelude.{
  ℕ, zero, suc, ◌+◌, ◌≤◌, ◌<◌, String, ◌≡◌, refl, ap, sym, ◌∙◌, inl, inr, false, List, [], ◌∷◌,
  tally, ◌==◌, eq_iff, arith, Bool-cases,
}

-- a key that no row of the table has: longer than all of them together
abbrev size : String → ℕ
size String.[] = 0
size (String.◌∷◌ c s) = suc (size s)

abbrev run : ℕ → String
run zero = String.[]
run (suc n) = String.◌∷◌ "x" (run n)

size-run : (n : ℕ) → size (run n) ≡ n
size-run zero = refl
size-run (suc n) = ap suc (size-run n)

module _ {A : Type 0} (key : A → String) where
  abbrev total : List A → ℕ
  total [] = 0
  total (x ∷ xs) = size (key x) + total xs

  unfoldable pub fresh_key : List A → String
  fresh_key xs = run (suc (total xs))

  longer : (n : ℕ) (xs : List A) → total xs < n → tally (λ r. key r == run n) xs ≡ 0
  longer n [] h = refl
  longer n (x ∷ xs) h = elim (Bool-cases (key x == run n)) [
    | inl e ↦
        let same : size (key x) ≡ n = ap size ((eq_iff _ _).0 e) ∙ size-run n in
        absurd (omega arith)
    | inr e ↦ rw e (longer n xs (omega arith))
  ]

  pub fresh_key_lem : (xs : List A) → tally (λ r. key r == fresh_key xs) xs ≡ 0
  unfolding fresh_key
  fresh_key_lem xs = longer (suc (total xs)) xs (omega arith)

  -- two rows with different keys
  pub unique_pair :
      (x y : A) → (key y == key x) ≡ false → (i : String) → tally (λ r. key r == i) (x ∷ y ∷ []) ≤ 1
  unique_pair x y apart i = elim (Bool-cases (key x == i)) [
    | inl e ↦
        let same : key x ≡ i = (eq_iff _ _).0 e in
        let other : (key y == i) ≡ false = rw (sym same) apart in ground arith
    | inr e ↦ ground arith
  ]
