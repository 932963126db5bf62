-- ===== src/Repository/Memory.antt =====
-- A repository over a list in memory: the operations and laws of `Repository` can be met.
use job_application_api.Prelude.{
  ℕ, ◌≤◌, String, ◌≡◌, ◌≢◌, refl, ◌⊎◌, inl, inr, Bool, true, not, ◌&&◌, Option, none, some, List,
  [], ◌∷◌, ◌++◌, select, tally, take, drop, All, leb, eqb, arith, ◌∙◌, if◌then◌else◌, Bool-cases,
}
use job_application_api.Repository.{Repository}
use job_application_api.Repository.Rows.{In, IsFalling, rewrite, head?}

module _ {A : Type 0} where
  abbrev pub find : (A → Bool) → List A → Option A
  find p [] = none
  find p (x ∷ xs) = if p x then some x else find p xs

  pub In-find : (p : A → Bool) (xs : List A) (r : A) → find p xs ≡ some r → In r xs
  In-find p [] r h = cc
  In-find p (x ∷ xs) r h = ground (arith, In-find p xs r)

  pub find_passes : (p : A → Bool) (xs : List A) (r : A) → find p xs ≡ some r → p r ≡ true
  find_passes p [] r h = cc
  find_passes p (x ∷ xs) r h = ground (arith, find_passes p xs r)

  pub find_misses : (p : A → Bool) (xs : List A) → find p xs ≡ none → tally p xs ≡ 0
  find_misses p [] h = refl
  find_misses p (x ∷ xs) h = ground (arith, find_misses p xs)

  abbrev pub insert_falling : (A → ℕ) → A → List A → List A
  insert_falling key a [] = a ∷ []
  insert_falling key a (x ∷ xs) =
      if leb (key x) (key a) then a ∷ x ∷ xs else x ∷ insert_falling key a xs

  abbrev pub sort : (A → ℕ) → List A → List A
  sort key [] = []
  sort key (x ∷ xs) = insert_falling key x (sort key xs)

  tally-insert_falling :
      (q : A → Bool) (key : A → ℕ) (a : A) (xs : List A)
      → tally q (insert_falling key a xs) ≡ tally q (a ∷ xs)
  tally-insert_falling q key a [] = refl
  tally-insert_falling q key a (x ∷ xs) = ground (arith, tally-insert_falling q key a xs)

  tally-sort : (q : A → Bool) (key : A → ℕ) (xs : List A) → tally q (sort key xs) ≡ tally q xs
  tally-sort q key [] = refl
  tally-sort q key (x ∷ xs) =
      ground (arith, tally-insert_falling q key x (sort key xs), tally-sort q key xs)

  tally-select : (p q : A → Bool) (xs : List A) → tally q (select p xs) ≡ tally (λ r. p r && q r) xs
  tally-select p q [] = refl
  tally-select p q (x ∷ xs) = ground (arith, tally-select p q xs)

  All-le_trans :
      (key : A → ℕ) (n m : ℕ) (xs : List A)
      → n ≤ m
      → All (λ y. key y ≤ n) xs
      → All (λ y. key y ≤ m) xs
  All-le_trans key n m [] h a = tt
  All-le_trans key n m (x ∷ xs) h a = (omega arith, All-le_trans key n m xs h a.1)

  All-insert_falling :
      (key : A → ℕ) (n : ℕ) (a : A) (xs : List A)
      → key a ≤ n
      → All (λ y. key y ≤ n) xs
      → All (λ y. key y ≤ n) (insert_falling key a xs)
  All-insert_falling key n a [] h k = (h, tt)
  All-insert_falling key n a (x ∷ xs) h k = elim (Bool-cases (leb (key x) (key a))) [
    | inl e ↦ rw e (h, k)
    | inr e ↦ rw e (k.0, All-insert_falling key n a xs h k.1)
  ]

  insert_falling-IsFalling :
      (key : A → ℕ) (a : A) (xs : List A)
      → IsFalling key xs
      → IsFalling key (insert_falling key a xs)
  insert_falling-IsFalling key a [] f = (tt, tt)
  insert_falling-IsFalling key a (x ∷ xs) f = elim (Bool-cases (leb (key x) (key a))) [
    | inl e ↦
        let le : key x ≤ key a = ground arith in
        rw e ((le, All-le_trans key (key x) (key a) xs le f.0), f)
    | inr e ↦
        let le : key a ≤ key x = ground arith in
        rw e (All-insert_falling key (key x) a xs le f.0, insert_falling-IsFalling key a xs f.1)
  ]

  pub sort-IsFalling : (key : A → ℕ) (xs : List A) → IsFalling key (sort key xs)
  sort-IsFalling key [] = tt
  sort-IsFalling key (x ∷ xs) = insert_falling-IsFalling key x (sort key xs) (sort-IsFalling key xs)

module _ {A : Type 0} (clash : A → A → Bool) where
  abbrev pub add : A → List A → Option (List A)
  add r s = if eqb (tally (clash r) s) 0 then some (s ++ r ∷ []) else none

  pub rows-add : (r : A) (s t : List A) → add r s ≡ some t → t ≡ s ++ r ∷ []
  rows-add r s t h = ground arith

  pub add_clashes : (r : A) (s : List A) → add r s ≡ none → tally (clash r) s ≢ 0
  add_clashes r s h = ground arith

  pub add_fits : (r : A) (s t : List A) → add r s ≡ some t → tally (clash r) s ≡ 0
  add_fits r s t h = ground arith

module _ {A : Type 0} where
  In-insert_falling :
      (key : A → ℕ) (a r : A) (xs : List A) → In r (insert_falling key a xs) → In r (a ∷ xs)
  In-insert_falling key a r [] m = m
  In-insert_falling key a r (x ∷ xs) m = elim (Bool-cases (leb (key x) (key a))) [
    | inl e ↦ rw e at m
    | inr e ↦ later (In-insert_falling key a r xs) (rw e at m)
  ]
    where
      later :
          (In r (insert_falling key a xs) → In r (a ∷ xs))
          → In r (x ∷ insert_falling key a xs)
          → In r (a ∷ x ∷ xs)
      later ih (inl e) = inr (inl e)
      later ih (inr n) = elim (ih n) [ inl e ↦ inl e | inr k ↦ inr (inr k) ]

  In-sort : (key : A → ℕ) (r : A) (xs : List A) → In r (sort key xs) → In r xs
  In-sort key r [] m = m
  In-sort key r (x ∷ xs) m = elim (In-insert_falling key x r (sort key xs) m) [
    | inl e ↦ inl e
    | inr k ↦ inr (In-sort key r xs k)
  ]

  In-select : (p : A → Bool) (r : A) (xs : List A) → In r (select p xs) → In r xs
  In-select p r [] m = m
  In-select p r (x ∷ xs) m = elim (Bool-cases (p x)) [
    | inl e ↦ elim (cons_cases (rw e at m)) [ inl h ↦ inl h | inr h ↦ inr (In-select p r xs h) ]
    | inr e ↦ inr (In-select p r xs (rw e at m))
  ]
    where
      cons_cases : In r (x ∷ select p xs) → (x ≡ r) ⊎ In r (select p xs)
      cons_cases h = h

  pub In-sorted :
      (key : A → ℕ) (p : A → Bool) (s : List A) (r : A) → In r (sort key (select p s)) → In r s
  In-sorted key p s r m = In-select p r s (In-sort key r (select p s) m)

  pub tally-sorted :
      (key : A → ℕ) (p q : A → Bool) (s : List A)
      → tally q (sort key (select p s)) ≡ tally (λ r. p r && q r) s
  tally-sorted key p q s = tally-sort q key (select p s) ∙ tally-select p q s

-- the list is the table; `next` and `time` stand for the database's key generator and clock
abbrev pub memory :
    {A : Type 0} (clash : A → A → Bool) (next : List A → String) (time : List A → ℕ)
    → Repository A clash
memory {A} clash next time = record {
  State = List A;
  rows = λ s. s;
  find_one = find;
  In-find_one = In-find;
  find_one_passes = find_passes;
  find_one_misses = find_misses;
  count = tally;
  count_tally = λ p s. refl;
  ordered = λ key p s. sort key (select p s);
  tally-ordered = tally-sorted;
  In-ordered = In-sorted;
  ordered-IsFalling = λ key p s. sort-IsFalling key (select p s);
  find_first = λ key p s. head? (sort key (select p s));
  find_first_lem = λ key p s. refl;
  get_many = λ key p k n s. take n (drop k (sort key (select p s)));
  get_many_lem = λ key p k n s. refl;
  update = rewrite;
  rows-update = λ p f s. refl;
  remove = λ p s. select (λ r. not (p r)) s;
  rows-remove = λ p s. refl;
  next_id = next;
  now = time;
  insert = add clash;
  rows-insert = rows-add clash;
  insert_clashes = add_clashes clash;
  insert_fits = add_fits clash;
}
