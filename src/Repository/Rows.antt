-- ===== src/Repository/Rows.antt =====
-- Lists of rows: membership, rewriting by a test, and how counts change.
use job_application_api.Prelude.{
  ℕ, Option, none, some, All, ◌+◌, ◌≤◌, ◌≡◌, refl, ◌⊎◌, inl, inr, Bool, true, false, ◌&&◌, List, [],
  ◌∷◌, ◌++◌, tally, arith, if◌then◌else◌,
}

module _ {A : Type 0} where
  abbrev pub In : A → List A → Type 0
  In r [] = ⊥
  In r (x ∷ xs) = (x ≡ r) ⊎ In r xs

  -- `f` on the rows that pass
  abbrev pub rewrite : (A → Bool) → (A → A) → List A → List A
  rewrite p f [] = []
  rewrite p f (x ∷ xs) = (if p x then f x else x) ∷ rewrite p f xs

  abbrev pub head? : List A → Option A
  head? [] = none
  head? (x ∷ xs) = some x

  -- each key is at least those behind it
  abbrev pub IsFalling : (A → ℕ) → List A → Type 0
  IsFalling key [] = Unit
  IsFalling key (x ∷ xs) = All (λ y. key y ≤ key x) xs × IsFalling key xs

module _ {A : Type 0} (p : A → Bool) (f : A → A) where
  -- A rewriting costs a count at most one for each row that it touches.
  pub tally-rewrite-ge :
      (q : A → Bool) (xs : List A) → tally q xs ≤ tally q (rewrite p f xs) + tally p xs
  tally-rewrite-ge q [] = omega arith
  tally-rewrite-ge q (x ∷ xs) = ground (arith, tally-rewrite-ge q xs)

  -- A count is kept where the rewriting does not change its test.
  pub tally-rewrite_same :
      (q : A → Bool)
      → ((x : A) → q (f x) ≡ q x)
      → (xs : List A) → tally q (rewrite p f xs) ≡ tally q xs
  tally-rewrite_same q h [] = refl
  tally-rewrite_same q h (x ∷ xs) = ground (arith, h x, tally-rewrite_same q h xs)

  -- A count does not fall where what is written passes the test.
  pub tally-rewrite_gains :
      (q : A → Bool)
      → ((x : A) → q (f x) ≡ true)
      → (xs : List A) → tally q xs ≤ tally q (rewrite p f xs)
  tally-rewrite_gains q h [] = omega arith
  tally-rewrite_gains q h (x ∷ xs) = ground (arith, h x, tally-rewrite_gains q h xs)

  -- A count is kept by a rewriting that touches only rows outside of it, and writes none into it.
  pub tally-rewrite_apart :
      (q : A → Bool)
      → ((x : A) → q (f x) ≡ false)
      → (xs : List A) → tally (λ r. p r && q r) xs ≡ 0
      → tally q (rewrite p f xs) ≡ tally q xs
  tally-rewrite_apart q h [] e = refl
  tally-rewrite_apart q h (x ∷ xs) e = ground (arith, h x, tally-rewrite_apart q h xs)

module _ {A : Type 0} (p : A → Bool) (f : A → A) where
  -- A rewriting that writes none into a count takes the rows that it touches from it.
  pub tally-rewrite_loses :
      (q : A → Bool)
      → ((x : A) → q (f x) ≡ false)
      → (xs : List A) → tally q (rewrite p f xs) + tally (λ r. p r && q r) xs ≡ tally q xs
  tally-rewrite_loses q h [] = refl
  tally-rewrite_loses q h (x ∷ xs) = ground (arith, h x, tally-rewrite_loses q h xs)

  -- a row that is not touched stays
  pub In-rewrite_other : (r : A) (xs : List A) → In r xs → p r ≡ false → In r (rewrite p f xs)
  In-rewrite_other r [] m h = m
  In-rewrite_other r (x ∷ xs) (inl e) h = let k : p x ≡ false = rw e h in inl (rw k e)
  In-rewrite_other r (x ∷ xs) (inr m) h = inr (In-rewrite_other r xs m h)

module _ {A : Type 0} (p : A → Bool) where
  pub tally-In : (r : A) (xs : List A) → In r xs → p r ≡ true → 1 ≤ tally p xs
  tally-In r [] m h = absurd m
  tally-In r (x ∷ xs) (inl e) h = let k : p x ≡ true = rw e h in ground arith
  tally-In r (x ∷ xs) (inr m) h = ground (arith, tally-In r xs m h)

module _ {A : Type 0} (p q : A → Bool) where
  pub tally-and-le : (xs : List A) → tally (λ r. p r && q r) xs ≤ tally p xs
  tally-and-le [] = omega arith
  tally-and-le (x ∷ xs) = ground (arith, tally-and-le xs)

  -- Where one row at most passes, and a row that passes fails the second test, none passes both.
  pub tally-and_unique :
      (r : A) (xs : List A)
      → In r xs
      → p r ≡ true
      → q r ≡ false
      → tally p xs ≤ 1
      → tally (λ x. p x && q x) xs ≡ 0
  tally-and_unique r [] m hp hq u = absurd m
  tally-and_unique r (x ∷ xs) (inl e) hp hq u =
      let k : p x ≡ true = rw e hp in
      let j : q x ≡ false = rw e hq in ground (arith, tally-and-le xs)
  tally-and_unique r (x ∷ xs) (inr m) hp hq u =
      ground (arith, tally-In p r xs m hp, tally-and_unique r xs m hp hq)

module _ {A : Type 0} where
  pub tally-append : (p : A → Bool) (xs ys : List A) → tally p (xs ++ ys) ≡ tally p xs + tally p ys
  tally-append p [] ys = omega arith
  tally-append p (x ∷ xs) ys = ground (arith, tally-append p xs ys)

  pub In-append_left : (r : A) (xs ys : List A) → In r xs → In r (xs ++ ys)
  In-append_left r [] ys m = absurd m
  In-append_left r (x ∷ xs) ys (inl e) = inl e
  In-append_left r (x ∷ xs) ys (inr m) = inr (In-append_left r xs ys m)

  pub In-append_right : (r : A) (xs ys : List A) → In r ys → In r (xs ++ ys)
  In-append_right r [] ys m = m
  In-append_right r (x ∷ xs) ys m = inr (In-append_right r xs ys m)

-- Where one row at most passes, the rewriting is known by what it does to that row.
module _ {A : Type 0} (p : A → Bool) (f g : A → A) where
  rewrite_none : (xs : List A) → tally p xs ≡ 0 → rewrite p f xs ≡ rewrite p g xs
  rewrite_none [] h = refl
  rewrite_none (x ∷ xs) h = ground (arith, rewrite_none xs)

  pub rewrite_unique :
      (r : A) (xs : List A)
      → In r xs
      → p r ≡ true
      → f r ≡ g r
      → tally p xs ≤ 1
      → rewrite p f xs ≡ rewrite p g xs
  rewrite_unique r [] m hp e u = absurd m
  rewrite_unique r (x ∷ xs) (inl same) hp e u =
      let k : p x ≡ true = rw same hp in
      let j : f x ≡ g x = rw same e in ground (arith, rewrite_none xs)
  rewrite_unique r (x ∷ xs) (inr m) hp e u =
      ground (arith, tally-In p r xs m hp, rewrite_unique r xs m hp e)

module _ {A : Type 0} (p : A → Bool) (f : A → A) where
  -- a rewritten row stands among the rewritten rows
  pub In-rewrite : (r : A) (xs : List A) → In r xs → p r ≡ true → In (f r) (rewrite p f xs)
  In-rewrite r [] m h = m
  In-rewrite r (x ∷ xs) (inl e) h = let k : p x ≡ true = rw e h in inl (rw (k, e) refl)
  In-rewrite r (x ∷ xs) (inr m) h = inr (In-rewrite r xs m h)
