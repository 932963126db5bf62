-- ===== src/Naming.antt =====
-- src/config/snake-naming.strategy.ts: the names of tables and columns. `toLowerCase` is written
-- for ASCII, which every name of an entity is.
pub mod Columns
mod Tests
use job_application_api.Prelude.{
  ℕ, String, Bool, true, false, ◌&&◌, Option, none, some, leb, eqb, code, Char, ◌==◌, if◌then◌else◌,
}
use job_application_api.Js.{to_lower_case}
use Prim.Native.String.{◌++◌ as concat}

abbrev pub is_upper : Char → Bool
is_upper c = leb b'A' (code c) && leb (code c) b'Z'

-- `s.replace(/([A-Z])/g, '_$1')`
unfoldable pub underscored : String → String
underscored String.[] = String.[]
underscored (String.◌∷◌ c s) =
    let rest = String.◌∷◌ c (underscored s) in if is_upper c then String.◌∷◌ "_" rest else rest

unfoldable pub snake : String → String
snake s = to_lower_case (underscored s)

-- `s.replace(/^_/, '')`
abbrev without_first : String → String
without_first String.[] = String.[]
without_first (String.◌∷◌ c s) = if eqb (code c) b'_' then s else String.◌∷◌ c s

-- `a ?? b`
abbrev or_else : Option String → String → String
or_else none d = d
or_else (some s) d = s

unfoldable pub table_name : String → Option String → String
unfolding snake
table_name target user_specified = or_else user_specified (without_first (snake target))

unfoldable pub column_name : String → Option String → String
column_name property custom = or_else custom (snake property)

unfoldable pub relation_name : String → String
relation_name property = snake property

unfoldable pub join_column_name : String → String → String
join_column_name relation referenced = concat (column_name relation none) (concat "_" referenced)

unfoldable pub join_table_name : String → String → String
join_table_name first second = concat first (concat "_" second)

unfoldable pub join_table_column_name : String → String → Option String → String
join_table_column_name table property column =
    concat table (concat "_" (or_else column (column_name property none)))
