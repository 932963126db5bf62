-- ===== src/Migrations/Undo.antt =====
-- Undoing the migrations gives the schema back.
use job_application_api.Prelude.{
  ◌≡◌, refl, sym, ap, ◌∙◌, ◌⊎◌, inl, inr, Bool, true, false, not, Option, none, some, List, [], ◌∷◌,
  map, any, select, ◌==◌, eq_iff, eq_refl, arith, Bool-cases, Option-cases,
}
use job_application_api.Repository.Rows.{In}
use job_application_api.Migrations.{
  Table, Index, Enum, Schema, Statement, create_type, create_table, create_index, drop_table,
  drop_type, Migration, table_uses, table_refers, has_enum, has_table, has_index, all, fits,
  execute, execute_next, execute_all,
}
use job_application_api.Migrations.Files.{migrations}
use job_application_api.Migrations.Closed.{
  IsClosed, Grows, both, fits_more, select-none, refers_none, uses_none, indexes_none,
}

-- a migration that creates a type where it has one, a table, and indexes on this table
abbrev creates_type : Option Enum → List Statement → List Statement
creates_type none sts = sts
creates_type (some e) sts = create_type e ∷ sts

abbrev drops_type : Option Enum → List Statement
drops_type none = []
drops_type (some e) = drop_type e.name ∷ []

abbrev shaped : Option Enum → Table → List Index → Migration
shaped e t is = record {
  up = creates_type e (create_table t ∷ map create_index is);
  down = drop_table t.name ∷ drops_type e;
}

-- its indexes stand on its table
abbrev all_on : Table → List Index → Bool
all_on t is = all (λ i. i.on == t.name) is

-- the first statement succeeds, and the others behind it
first_of :
    (st : Statement) (sts : List Statement) (s u : Schema)
    → execute_next (st ∷ sts) (some s) ≡ some u
    → (t : Schema) × (execute st s ≡ some t) × (execute_next sts (some t) ≡ some u)
unfolding execute_next
first_of st sts s u e = elim (Option-cases (execute st s)) [
  | inl failed ↦ let out : none ≡ some u = sym (ap (execute_next sts) failed) ∙ e in cc
  | inr (t, done) ↦ (t, done, sym (ap (execute_next sts) done) ∙ e)
]

unwrap : {A : Type 0} (a b : A) → some a ≡ some b → b ≡ a
unwrap a b h = ground arith

done_type :
    (e : Enum) (s t : Schema)
    → execute (create_type e) s ≡ some t
    → (has_enum s e.name ≡ false) × (t ≡ record s { enums = e ∷ s.enums })
unfolding execute
done_type e s t d = elim (Bool-cases (has_enum s e.name)) [
  | inl h ↦ let failed : none ≡ some t = rw h at d in cc
  | inr h ↦ (h, unwrap _ t (rw h at d))
]

done_table :
    (n : Table) (s t : Schema)
    → execute (create_table n) s ≡ some t
    → (has_table s n.name ≡ false) × (fits s n ≡ true) × (t ≡ record s { tables = n ∷ s.tables })
unfolding execute
done_table n s t d = elim (Bool-cases (has_table s n.name)) [
  | inl h ↦ let failed : none ≡ some t = rw h at d in cc
  | inr h ↦ elim (Bool-cases (fits s n)) [
    | inr k ↦ let failed : none ≡ some t = rw (h, k) at d in cc
    | inl k ↦ (h, k, unwrap _ t (rw (h, k) at d))
  ]
]

done_index :
    (i : Index) (s t : Schema)
    → execute (create_index i) s ≡ some t
    → t ≡ record s { indexes = i ∷ s.indexes }
unfolding execute
done_index i s t d = elim (Bool-cases (has_index s i.name)) [
  | inl h ↦ let failed : none ≡ some t = rw h at d in cc
  | inr h ↦ elim (Bool-cases (has_table s i.on)) [
    | inr k ↦ let failed : none ≡ some t = rw (h, k) at d in cc
    | inl k ↦ unwrap _ t (rw (h, k) at d)
  ]
]

-- what the indexes leave: the tables and types, and the indexes on other tables
Indexed : Table → Schema → Schema → Type 0
Indexed n s u =
    (u.enums ≡ s.enums)
    × (u.tables ≡ s.tables)
    × (select (λ i. not (i.on == n.name)) u.indexes ≡ select (λ i. not (i.on == n.name)) s.indexes)
    × ((i : Index) → In i u.indexes → In i s.indexes ⊎ (i.on ≡ n.name))

indexed :
    (n : Table) (is : List Index) (s u : Schema)
    → all_on n is ≡ true
    → execute_next (map create_index is) (some s) ≡ some u
    → Indexed n s u
unfolding execute_next Indexed
indexed n [] s u on e = rw (unwrap s u e) (refl, refl, refl, λ i m. inl m)
indexed n (i ∷ is) s u on e =
    let (t, d, later) = first_of (create_index i) (map create_index is) s u e in
    let (own, rest) = both (i.on == n.name) _ on in
    let next =
      indexed n is (record s { indexes = i ∷ s.indexes }) u rest
        (rw (done_index i s t d) at later) in
    (next.0, next.1, next.2 ∙ rw own refl, λ x m. known x (next.3 x m) ((eq_iff _ _).0 own))
  where
    known :
        (x : Index)
        → In x (i ∷ s.indexes) ⊎ (x.on ≡ n.name)
        → i.on ≡ n.name
        → In x s.indexes ⊎ (x.on ≡ n.name)
    known x (inl (inl same)) own = inr (ap (λ y. y.on) (sym same) ∙ own)
    known x (inl (inr m)) own = inl m
    known x (inr k) own = inr k

-- a table that was just created is dropped again
undo_table :
    (n : Table) (s u : Schema)
    → IsClosed s
    → has_table s n.name ≡ false
    → Indexed n (record s { tables = n ∷ s.tables }) u
    → execute (drop_table n.name) u ≡ some s
unfolding execute Indexed
undo_table n s u closed new (enums, tables, indexes, fresh) =
    let own : (n.name == n.name) ≡ true = eq_refl n.name in
    let rest : select (λ x. not (x.name == n.name)) u.tables ≡ s.tables =
      rw (tables, own) (select-none (λ x. x.name == n.name) s.tables new) in
    let kept : select (λ i. not (i.on == n.name)) u.indexes ≡ s.indexes =
      indexes ∙ select-none (λ i. i.on == n.name) s.indexes (indexes_none s closed n.name new) in
    let there : has_table u n.name ≡ true = rw (tables, own) refl in
    let free : any (table_refers n.name) s.tables ≡ false = refers_none s closed n.name new in
    rw (rest, kept, there, free, enums) refl

undo_type :
    (e : Enum) (s : Schema)
    → IsClosed s
    → has_enum s e.name ≡ false
    → execute (drop_type e.name) (record s { enums = e ∷ s.enums }) ≡ some s
unfolding execute
undo_type e s closed new =
    let own : (e.name == e.name) ≡ true = eq_refl e.name in
    let rest : select (λ x. not (x.name == e.name)) s.enums ≡ s.enums =
      select-none (λ x. x.name == e.name) s.enums new in
    let free : any (table_uses e.name) s.tables ≡ false = uses_none s closed e.name new in
    rw (own, free, rest) refl

after_create_type :
    (e : Enum) (s : Schema) → IsClosed s → IsClosed (record s { enums = e ∷ s.enums })
after_create_type e s h = record {
  tables_fit = λ t m.
      fits_more s (record s { enums = e ∷ s.enums }) t
        (record {
          more_enums =
              λ n k. elim (Bool-cases (e.name == n)) [ inl b ↦ rw b refl | inr b ↦ rw b k ];
          more_tables = λ n k. k;
        })
        (h.tables_fit t m);
  indexes_fit = h.indexes_fit;
}

after_create_table :
    (n : Table) (s u : Schema)
    → IsClosed s
    → fits s n ≡ true
    → Indexed n (record s { tables = n ∷ s.tables }) u
    → IsClosed u
unfolding Indexed
after_create_table n s u h fit (enums, tables, indexes, fresh) =
    let grows : Grows s u = record {
      more_enums = λ k e. rw enums e;
      more_tables =
          λ k e. rw tables (elim (Bool-cases (n.name == k)) [ inl b ↦ rw b refl | inr b ↦ rw b e ]);
    } in
    record {
      tables_fit = λ t m. elim (member t (rw tables at m)) [
        | inl e ↦ fits_more s u t grows (rw (← e) fit)
        | inr m ↦ fits_more s u t grows (h.tables_fit t m)
      ];
      indexes_fit = λ i m. elim (fresh i m) [
        | inl old ↦ grows.more_tables i.on (h.indexes_fit i old)
        | inr own ↦ rw (tables, own, eq_refl) refl
      ];
    }
  where
    member : (t : Table) → In t (n ∷ s.tables) → (n ≡ t) ⊎ In t s.tables
    member t m = m

-- a migration of this shape is undone, and leaves the schema closed
abbrev IsUndone : Migration → Type 0
IsUndone m =
    (s u : Schema)
    → IsClosed s
    → execute_all m.up s ≡ some u
    → (execute_all m.down u ≡ some s) × IsClosed u

shaped-IsUndone :
    (e : Option Enum) (n : Table) (is : List Index) → all_on n is ≡ true → IsUndone (shaped e n is)
unfolding execute_all execute_next
shaped-IsUndone none n is on s u closed e =
    let (t, made, later) = first_of (create_table n) (map create_index is) s u e in
    let (new, fit, same) = done_table n s t made in
    let effect = indexed n is _ u on (rw same at later) in
    (
      ap (execute_next []) (undo_table n s u closed new effect),
      after_create_table n s u closed fit effect,
    )
shaped-IsUndone (some k) n is on s u closed e =
    let (r, typed, more) = first_of (create_type k) (create_table n ∷ map create_index is) s u e in
    let (new_type, is_typed) = done_type k s r typed in
    let typed_schema : Schema = record s { enums = k ∷ s.enums } in
    let (t, made, later) =
      first_of (create_table n) (map create_index is) typed_schema u (rw is_typed at more) in
    let (new, fit, same) = done_table n typed_schema t made in
    let effect = indexed n is _ u on (rw same at later) in
    let after = after_create_type k s closed in
    (
      ap (execute_next (drop_type k.name ∷ [])) (undo_table n typed_schema u after new effect)
          ∙ ap (execute_next []) (undo_type k s closed new_type),
      after_create_table n typed_schema u after fit effect,
    )

-- the migrations one after another, and undone from the last
migrate_next : List Migration → Option Schema → Option Schema
migrate_next ms none = none
migrate_next [] (some s) = some s
migrate_next (m ∷ ms) (some s) = migrate_next ms (execute_all m.up s)

unfoldable pub migrate : List Migration → Schema → Option Schema
unfolding migrate_next
migrate ms s = migrate_next ms (some s)

undo_last : Migration → Option Schema → Option Schema
undo_last m none = none
undo_last m (some s) = execute_all m.down s

pub revert : List Migration → Schema → Option Schema
unfolding undo_last
revert [] s = some s
revert (m ∷ ms) s = undo_last m (revert ms s)

-- each of the migrations is undone
abbrev AreUndone : List Migration → Type 0
AreUndone [] = Unit
AreUndone (m ∷ ms) = IsUndone m × AreUndone ms

each : AreUndone migrations
each = (
  shaped-IsUndone (some _) _ (_ ∷ []) refl,
  (
    shaped-IsUndone (some _) _ (_ ∷ _ ∷ _ ∷ _ ∷ []) refl,
    (
      shaped-IsUndone (some _) _ (_ ∷ _ ∷ _ ∷ []) refl,
      (shaped-IsUndone none _ (_ ∷ []) refl, (shaped-IsUndone none _ (_ ∷ []) refl, tt)),
    ),
  ),
)

reverts :
    (ms : List Migration) (s u : Schema)
    → AreUndone ms
    → IsClosed s
    → migrate ms s ≡ some u
    → revert ms u ≡ some s
unfolding migrate migrate_next revert undo_last
reverts [] s u h closed e = rw (unwrap s u e) refl
reverts (m ∷ ms) s u (undone, h) closed e = elim (Option-cases (execute_all m.up s)) [
  | inl failed ↦ let out : none ≡ some u = sym (ap (migrate_next ms) failed) ∙ e in cc
  | inr (t, done) ↦
      let (back, still) = undone s t closed done in
      ap (undo_last m) (reverts ms t u h still (sym (ap (migrate_next ms) done) ∙ e)) ∙ back
]

-- Where the migrations succeed on a schema in which every type and table that is referred to is
-- there, undoing them from the last to the first succeeds, and gives this schema back.
pub revert-migrate :
    (s u : Schema) → IsClosed s → migrate migrations s ≡ some u → revert migrations u ≡ some s
revert-migrate s u closed e = reverts migrations s u each closed e
