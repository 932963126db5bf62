-- ===== src/Migrations.antt =====
-- src/migrations: the statements of each migration, and what PostgreSQL makes of the schema. A
-- statement fails where PostgreSQL refuses it; index names are left with their tables.
pub mod Files
pub mod Closed
pub mod Undo
mod Tests
use job_application_api.Prelude.{
  ℕ, String, Bool, true, false, not, ◌&&◌, ◌||◌, Option, none, some, List, [], ◌∷◌, any, select,
  ◌==◌, if◌then◌else◌,
}

pub data ColumnType : Type 0 where
  uuid varchar text timestamp boolean jsonb int : ColumnType
  enum : String → ColumnType

-- `ON DELETE` of a foreign key
pub data OnDelete : Type 0 where
  cascade set_null : OnDelete

pub record Reference : Type 0 where
  pub to : String
  pub on_delete : OnDelete

pub record Column : Type 0 where
  pub name : String
  pub holds : ColumnType
  pub nullable : Bool
  pub default : Option String
  pub references : Option Reference

-- a table with its primary key `id` and its other unique constraints
pub record Table : Type 0 where
  pub name : String
  pub columns : List Column
  pub uniques : List (List String)

pub record Index : Type 0 where
  pub name : String
  pub on : String
  pub column : String

pub record Enum : Type 0 where
  pub name : String
  pub labels : List String

pub record Schema : Type 0 where
  pub enums : List Enum
  pub tables : List Table
  pub indexes : List Index

pub data Statement : Type 0 where
  create_type : Enum → Statement
  create_table : Table → Statement
  create_index : Index → Statement
  drop_table : String → Statement
  drop_type : String → Statement

-- what a column needs of the schema: its type, and the table that it refers to, or its own
abbrev pub uses : String → ColumnType → Bool
uses name (enum e) = e == name
uses name holds = false

abbrev pub refers : String → Option Reference → Bool
refers name none = false
refers name (some r) = r.to == name

abbrev pub table_uses : String → Table → Bool
table_uses name t = any (λ c. uses name c.holds) t.columns

abbrev pub table_refers : String → Table → Bool
table_refers name t = any (λ c. refers name c.references) t.columns

abbrev pub has_enum : Schema → String → Bool
has_enum s name = any (λ e. e.name == name) s.enums

abbrev pub has_table : Schema → String → Bool
has_table s name = any (λ t. t.name == name) s.tables

abbrev pub has_index : Schema → String → Bool
has_index s name = any (λ i. i.name == name) s.indexes

abbrev pub known_type : Schema → ColumnType → Bool
known_type s (enum e) = has_enum s e
known_type s holds = true

abbrev pub known_target : Schema → String → Option Reference → Bool
known_target s self none = true
known_target s self (some r) = r.to == self || has_table s r.to

abbrev pub all {ℓ} : {A : Type ℓ} → (A → Bool) → List A → Bool
all p [] = true
all p (x ∷ xs) = p x && all p xs

-- the types and the targets of the columns are there
abbrev pub fits : Schema → Table → Bool
fits s t = all (λ c. known_type s c.holds && known_target s t.name c.references) t.columns

pub execute : Statement → Schema → Option Schema
execute (create_type e) s =
    if has_enum s e.name then none else some (record s { enums = e ∷ s.enums })
execute (create_table t) s =
    if has_table s t.name
    then none
    else if fits s t
    then some (record s { tables = t ∷ s.tables })
    else none
execute (create_index i) s =
    if has_index s i.name
    then none
    else if has_table s i.on
    then some (record s { indexes = i ∷ s.indexes })
    else none
execute (drop_table name) s =
    let rest = select (λ t. not (t.name == name)) s.tables in
    if has_table s name && not (any (table_refers name) rest)
    then some (record s { tables = rest; indexes = select (λ i. not (i.on == name)) s.indexes })
    else none
execute (drop_type name) s =
    if has_enum s name && not (any (table_uses name) s.tables)
    then some (record s { enums = select (λ e. not (e.name == name)) s.enums })
    else none

pub execute_next : List Statement → Option Schema → Option Schema
unfolding execute
execute_next sts none = none
execute_next [] (some s) = some s
execute_next (st ∷ sts) (some s) = execute_next sts (execute st s)

-- the statements one after another, up to the first that fails
pub execute_all : List Statement → Schema → Option Schema
unfolding execute_next
execute_all sts s = execute_next sts (some s)

pub record Migration : Type 0 where
  pub up : List Statement
  pub down : List Statement
