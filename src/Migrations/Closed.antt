-- ===== src/Migrations/Closed.antt =====
-- Schemas in which every type and every table that is referred to is there.
use job_application_api.Prelude.{
  String, ◌≡◌, refl, sym, ◌∙◌, inl, inr, Bool, true, false, not, ◌&&◌, Option, none, some, List, [],
  ◌∷◌, any, select, ◌==◌, eq_iff, arith, Bool-cases,
}
use job_application_api.Repository.Rows.{In}
use job_application_api.Repository.Refs.{any-In}
use job_application_api.Migrations.{
  ColumnType, uuid, varchar, text, timestamp, boolean, jsonb, int, enum, Reference, Table, Index,
  Schema, uses, refers, table_uses, table_refers, has_enum, has_table, known_type, known_target,
  all, fits,
}

module _ {A : Type 0} (p : A → Bool) where
  pub select-none : (xs : List A) → any p xs ≡ false → select (λ x. not (p x)) xs ≡ xs
  select-none [] h = refl
  select-none (x ∷ xs) h = ground (arith, select-none xs)

  none-In : (xs : List A) (x : A) → any p xs ≡ false → In x xs → p x ≡ false
  none-In xs x h m = elim (Bool-cases (p x)) [
    | inl e ↦ let found : any p xs ≡ true = any-In p xs x m e in cc
    | inr e ↦ e
  ]

  all-In : (xs : List A) (x : A) → all p xs ≡ true → In x xs → p x ≡ true
  all-In [] x h m = absurd m
  all-In (y ∷ xs) x h (inl e) = rw (← e) (ground arith)
  all-In (y ∷ xs) x h (inr m) = all-In xs x (ground arith) m

  In-none : (xs : List A) → ((x : A) → In x xs → p x ≡ false) → any p xs ≡ false
  In-none [] h = refl
  In-none (x ∷ xs) h = rw (h x (inl refl)) (In-none xs (λ y m. h y (inr m)))

  In-all : (xs : List A) → ((x : A) → In x xs → p x ≡ true) → all p xs ≡ true
  In-all [] h = refl
  In-all (x ∷ xs) h = rw (h x (inl refl)) (In-all xs (λ y m. h y (inr m)))

-- what tables and indexes refer to is there
pub record IsClosed (s : Schema) : Type 0 where
  pub tables_fit : (t : Table) → In t s.tables → fits s t ≡ true
  pub indexes_fit : (i : Index) → In i s.indexes → has_table s i.on ≡ true

-- a schema with more types and tables
pub record Grows (s u : Schema) : Type 0 where
  pub more_enums : (n : String) → has_enum s n ≡ true → has_enum u n ≡ true
  pub more_tables : (n : String) → has_table s n ≡ true → has_table u n ≡ true

type_more :
    (s u : Schema) (k : ColumnType) → Grows s u → known_type s k ≡ true → known_type u k ≡ true
type_more s u uuid g h = refl
type_more s u varchar g h = refl
type_more s u text g h = refl
type_more s u timestamp g h = refl
type_more s u boolean g h = refl
type_more s u jsonb g h = refl
type_more s u int g h = refl
type_more s u (enum e) g h = g.more_enums e h

target_more :
    (s u : Schema) (self : String) (r : Option Reference)
    → Grows s u
    → known_target s self r ≡ true
    → known_target u self r ≡ true
target_more s u self none g h = refl
target_more s u self (some r) g h = elim (Bool-cases (r.to == self)) [
  | inl e ↦ rw e refl
  | inr e ↦ rw e (g.more_tables r.to (rw e at h))
]

pub no_reference :
    (s : Schema) (self name : String) (r : Option Reference)
    → known_target s self r ≡ true
    → (self == name) ≡ false
    → has_table s name ≡ false
    → refers name r ≡ false
no_reference s self name none h other gone = refl
no_reference s self name (some r) h other gone = elim (Bool-cases (r.to == name)) [
  | inr e ↦ e
  | inl e ↦
      let same : r.to ≡ name = (eq_iff _ _).0 e in
      elim (Bool-cases (r.to == self)) [
        | inl k ↦
            let own : (self == name) ≡ true =
              (eq_iff _ _).1 (sym ((eq_iff r.to self).0 k) ∙ same) in
            cc
        | inr k ↦
            let there : has_table s r.to ≡ true = rw k at h in
            let here : has_table s name ≡ true = rw same at there in cc
      ]
]

pub no_use :
    (s : Schema) (name : String) (k : ColumnType)
    → known_type s k ≡ true
    → has_enum s name ≡ false
    → uses name k ≡ false
no_use s name uuid h gone = refl
no_use s name varchar h gone = refl
no_use s name text h gone = refl
no_use s name timestamp h gone = refl
no_use s name boolean h gone = refl
no_use s name jsonb h gone = refl
no_use s name int h gone = refl
no_use s name (enum e) h gone = elim (Bool-cases (e == name)) [
  | inr k ↦ k
  | inl k ↦
      let same : e ≡ name = (eq_iff _ _).0 k in
      let here : has_enum s name ≡ true = rw same at h in cc
]

pub both : (a b : Bool) → (a && b) ≡ true → (a ≡ true) × (b ≡ true)
both a b h = ground arith

pub fits_more : (s u : Schema) (t : Table) → Grows s u → fits s t ≡ true → fits u t ≡ true
fits_more s u t g h = In-all _ t.columns (λ c m.
    let fit =
      all-In (λ x. known_type s x.holds && known_target s t.name x.references) t.columns c h m in
    let (k, r) = both _ _ fit in
    rw (type_more s u c.holds g k, target_more s u t.name c.references g r) refl)

module _ (s : Schema) (closed : IsClosed s) (name : String) where
  -- no table of a closed schema refers to a table that is not there
  pub refers_none : has_table s name ≡ false → any (table_refers name) s.tables ≡ false
  refers_none h = In-none _ s.tables (λ t m.
      let other = none-In (λ x. x.name == name) s.tables t h m in
      In-none _ t.columns (λ c n.
        let fit =
          all-In (λ x. known_type s x.holds && known_target s t.name x.references) t.columns c
            (closed.tables_fit t m) n in
        no_reference s t.name name c.references (both _ _ fit).1 other h))

  pub uses_none : has_enum s name ≡ false → any (table_uses name) s.tables ≡ false
  uses_none h = In-none _ s.tables (λ t m. In-none _ t.columns (λ c n.
      let fit =
        all-In (λ x. known_type s x.holds && known_target s t.name x.references) t.columns c
          (closed.tables_fit t m) n in
      no_use s name c.holds (both _ _ fit).0 h))

  pub indexes_none : has_table s name ≡ false → any (λ i. i.on == name) s.indexes ≡ false
  indexes_none h = In-none _ s.indexes (λ i m. elim (Bool-cases (i.on == name)) [
    | inr e ↦ e
    | inl e ↦
        let same : i.on ≡ name = (eq_iff _ _).0 e in
        let fit : has_table s i.on ≡ true = closed.indexes_fit i m in
        let here : has_table s name ≡ true = rw same at fit in cc
  ])
