-- ===== src/Repository/Refs.antt =====
-- Primary keys and foreign keys of rows: what insertions, updates and removals keep.
use job_application_api.Prelude.{
  Option, none, some, ◌≤◌, String, ◌≡◌, refl, sym, ◌∙◌, ◌⊎◌, inl, inr, Bool, true, any, List, [],
  ◌∷◌, ◌++◌, select, tally, ◌==◌, eq_iff, eq_refl, arith, Bool-cases,
}
use job_application_api.Repository.Rows.{In, rewrite, tally-append, tally-rewrite_same, tally-In}

module _ {A : Type 0} where
  pub In-append_cases : (r : A) (xs : List A) (a : A) → In a (xs ++ r ∷ []) → In a xs ⊎ (r ≡ a)
  In-append_cases r [] a (inl e) = inr e
  In-append_cases r [] a (inr m) = absurd m
  In-append_cases r (x ∷ xs) a (inl e) = inl (inl e)
  In-append_cases r (x ∷ xs) a (inr m) = elim (In-append_cases r xs a m) [
    | inl h ↦ inl (inr h)
    | inr e ↦ inr e
  ]

  pub In-rewrite_cases :
      (p : A → Bool) (f : A → A) (xs : List A) (b : A)
      → In b (rewrite p f xs)
      → (a : A) × In a xs × ((a ≡ b) ⊎ (f a ≡ b))
  In-rewrite_cases p f [] b m = absurd m
  In-rewrite_cases p f (x ∷ xs) b (inl e) = (x, inl refl, ground arith)
  In-rewrite_cases p f (x ∷ xs) b (inr m) =
      let (a, there, which) = In-rewrite_cases p f xs b m in (a, inr there, which)

  pub In-select_cases :
      (p : A → Bool) (xs : List A) (a : A) → In a (select p xs) → In a xs × (p a ≡ true)
  In-select_cases p [] a m = absurd m
  In-select_cases p (x ∷ xs) a m = elim (Bool-cases (p x)) [
    | inl e ↦ elim (kept (rw e at m)) [
      | inl same ↦ (inl same, rw (← same) e)
      | inr later ↦ let (there, h) = In-select_cases p xs a later in (inr there, h)
    ]
    | inr e ↦ let (there, h) = In-select_cases p xs a (rw e at m) in (inr there, h)
  ]
    where
      kept : In a (x ∷ select p xs) → (x ≡ a) ⊎ In a (select p xs)
      kept h = h

  pub In-select : (p : A → Bool) (xs : List A) (a : A) → In a xs → p a ≡ true → In a (select p xs)
  In-select p [] a m h = m
  In-select p (x ∷ xs) a (inl e) h = let k : p x ≡ true = rw e h in rw k (inl e)
  In-select p (x ∷ xs) a (inr m) h = elim (Bool-cases (p x)) [
    | inl e ↦ rw e (inr (In-select p xs a m h))
    | inr e ↦ rw e (In-select p xs a m h)
  ]

  pub tally-select-le : (p q : A → Bool) (xs : List A) → tally q (select p xs) ≤ tally q xs
  tally-select-le p q [] = omega arith
  tally-select-le p q (x ∷ xs) = ground (arith, tally-select-le p q xs)

  pub tally-select_kept :
      (p q : A → Bool)
      → ((x : A) → q x ≡ true → p x ≡ true)
      → (xs : List A) → tally q (select p xs) ≡ tally q xs
  tally-select_kept p q h [] = refl
  tally-select_kept p q h (x ∷ xs) = ground (arith, h x, tally-select_kept p q h xs)

  pub any-In : (p : A → Bool) (xs : List A) (a : A) → In a xs → p a ≡ true → any p xs ≡ true
  any-In p [] a m h = absurd m
  any-In p (x ∷ xs) a (inl e) h = let k : p x ≡ true = rw e h in rw k refl
  any-In p (x ∷ xs) a (inr m) h = ground (arith, any-In p xs a m h)

  -- some row that passes
  pub tally-some : (p : A → Bool) (xs : List A) → 1 ≤ tally p xs → (a : A) × In a xs × (p a ≡ true)
  tally-some p [] h = absurd (omega arith)
  tally-some p (x ∷ xs) h = elim (Bool-cases (p x)) [
    | inl e ↦ (x, inl refl, e)
    | inr e ↦ let (a, there, k) = tally-some p xs (rw e at h) in (a, inr there, k)
  ]

-- one row at most has each key
module _ {A : Type 0} (key : A → String) where
  abbrev pub HasKeys : List A → Type 0
  HasKeys xs = (i : String) → tally (λ r. key r == i) xs ≤ 1

  abbrev pub Has : String → List A → Type 0
  Has i xs = 1 ≤ tally (λ r. key r == i) xs

  -- no key is lost
  abbrev pub Keeps : List A → List A → Type 0
  Keeps xs ys = (i : String) → Has i xs → Has i ys

  pub Has-In : (r : A) (xs : List A) → In r xs → Has (key r) xs
  Has-In r xs m = tally-In (λ x. key x == key r) r xs m (eq_refl (key r))

  -- rows with one key are one row
  pub same_row : (xs : List A) (a b : A) → HasKeys xs → In a xs → In b xs → key a ≡ key b → a ≡ b
  same_row [] a b h m n e = absurd m
  same_row (x ∷ xs) a b h (inl same) (inl other) e = sym same ∙ other
  same_row (x ∷ xs) a b h (inl same) (inr n) e =
      let more : Has (key x) xs = rw (same, e) (Has-In b xs n) in
      let most = h (key x) in absurd (ground (arith, eq_refl (key x)))
  same_row (x ∷ xs) a b h (inr m) (inl other) e =
      let more : Has (key x) xs = rw (other, ← e) (Has-In a xs m) in
      let most = h (key x) in absurd (ground (arith, eq_refl (key x)))
  same_row (x ∷ xs) a b h (inr m) (inr n) e =
      same_row xs a b (λ i. let most = h i in ground arith) m n e

  pub HasKeys-append :
      (r : A) (xs : List A)
      → HasKeys xs
      → tally (λ x. key x == key r) xs ≡ 0
      → HasKeys (xs ++ r ∷ [])
  HasKeys-append r xs h fresh i = rw tally-append (ground (arith, h i, eq_iff (key r) i))

  pub HasKeys-rewrite :
      (p : A → Bool) (f : A → A)
      → ((x : A) → key (f x) ≡ key x)
      → (xs : List A) → HasKeys xs
      → HasKeys (rewrite p f xs)
  HasKeys-rewrite p f same xs h i =
      rw (tally-rewrite_same p f (λ r. key r == i) (λ x. rw same refl)) (h i)

  pub HasKeys-select : (p : A → Bool) (xs : List A) → HasKeys xs → HasKeys (select p xs)
  HasKeys-select p xs h i = omega (arith, h i, tally-select-le p (λ r. key r == i) xs)

  pub Keeps-append : (r : A) (xs : List A) → Keeps xs (xs ++ r ∷ [])
  Keeps-append r xs i h = rw tally-append (omega arith)

  pub Keeps-rewrite :
      (p : A → Bool) (f : A → A)
      → ((x : A) → key (f x) ≡ key x)
      → (xs : List A) → Keeps xs (rewrite p f xs)
  Keeps-rewrite p f same xs i h =
      rw (tally-rewrite_same p f (λ r. key r == i) (λ x. rw same refl)) h

-- each row refers to a row that is there
module _ {A B : Type 0} (ref : A → String) (key : B → String) where
  abbrev pub Refers : List A → List B → Type 0
  Refers xs ys = (a : A) → In a xs → Has key (ref a) ys

  pub Refers-append :
      (r : A) (xs : List A) (ys : List B)
      → Refers xs ys
      → Has key (ref r) ys
      → Refers (xs ++ r ∷ []) ys
  Refers-append r xs ys h new a m = elim (In-append_cases r xs a m) [
    | inl old ↦ h a old
    | inr e ↦ rw (← e) new
  ]

  pub Refers-rewrite :
      (p : A → Bool) (f : A → A)
      → ((x : A) → ref (f x) ≡ ref x)
      → (xs : List A) (ys : List B) → Refers xs ys
      → Refers (rewrite p f xs) ys
  Refers-rewrite p f same xs ys h b m =
      let (a, there, which) = In-rewrite_cases p f xs b m in
      elim which [ inl e ↦ rw (← e) (h a there) | inr e ↦ rw (← e, same) (h a there) ]

  pub Refers-select :
      (p : A → Bool) (xs : List A) (ys : List B) → Refers xs ys → Refers (select p xs) ys
  Refers-select p xs ys h a m = h a (In-select_cases p xs a m).0

  pub Refers-Keeps : (xs : List A) (ys zs : List B) → Refers xs ys → Keeps key ys zs → Refers xs zs
  Refers-Keeps xs ys zs h k a m = k (ref a) (h a m)

-- each row refers to a row that is there, or to none
module _ {A B : Type 0} (ref : A → Option String) (key : B → String) where
  abbrev pub MayRefer : List A → List B → Type 0
  MayRefer xs ys = (a : A) (i : String) → In a xs → ref a ≡ some i → Has key i ys

  pub MayRefer-append :
      (r : A) (xs : List A) (ys : List B)
      → MayRefer xs ys
      → ref r ≡ none
      → MayRefer (xs ++ r ∷ []) ys
  MayRefer-append r xs ys h unset a i m e = elim (In-append_cases r xs a m) [
    | inl old ↦ h a i old e
    | inr same ↦ let set : ref r ≡ some i = rw same e in cc
  ]

  -- some rows refer to a given row now
  pub MayRefer-rewrite :
      (p : A → Bool) (f : A → A) (i : String)
      → ((x : A) → ref (f x) ≡ some i)
      → (xs : List A) (ys : List B) → MayRefer xs ys
      → Has key i ys
      → MayRefer (rewrite p f xs) ys
  MayRefer-rewrite p f i set xs ys h there b j m e =
      let (a, old, which) = In-rewrite_cases p f xs b m in
      elim which [
        | inl same ↦ h a j old (rw same e)
        | inr same ↦
            let again : ref b ≡ some i = rw (← same) (set a) in
            let one : i ≡ j = ground arith in rw (← one) there
      ]

  pub MayRefer-select :
      (p : A → Bool) (xs : List A) (ys : List B) → MayRefer xs ys → MayRefer (select p xs) ys
  MayRefer-select p xs ys h a i m = h a i (In-select_cases p xs a m).0

  pub MayRefer-Keeps :
      (xs : List A) (ys zs : List B) → MayRefer xs ys → Keeps key ys zs → MayRefer xs zs
  MayRefer-Keeps xs ys zs h k a i m e = k i (h a i m e)
