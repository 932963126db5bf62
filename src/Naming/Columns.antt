-- ===== src/Naming/Columns.antt =====
-- A property's name is read back from its column's, so no two properties share a column.
use job_application_api.Prelude.{
  ◌+◌, ◌-◌, ◌<◌, String, ◌≡◌, refl, sym, ap, ◌∙◌, inl, inr, Bool, true, false, none, eqb, code,
  Char, if◌then◌else◌, arith, Bool-cases,
}
use text.Mathlib.TextEquality.{Char-path}
use job_application_api.Js.{to_lower_case, ascii_char}
use job_application_api.Js.Decimal.{code-ascii_char}
use job_application_api.Naming.{is_upper, underscored, snake, column_name}

-- camel case: a letter behind an underscore is a capital
camel_from : Bool → String → String
camel_from flag String.[] = String.[]
camel_from true (String.◌∷◌ c s) = String.◌∷◌ (ascii_char (code c - 32)) (camel_from false s)
camel_from false (String.◌∷◌ c s) =
    let plain = String.◌∷◌ c (camel_from false s) in
    let capital = camel_from true s in if eqb (code c) b'_' then capital else plain

pub camel : String → String
unfolding camel_from
camel s = camel_from false s

-- an ASCII name without an underscore
abbrev pub IsPlain : String → Type 0
IsPlain String.[] = Unit
IsPlain (String.◌∷◌ c s) = (eqb (code c) b'_' ≡ false) × (code c < 128) × IsPlain s

raised : (c : Char) → is_upper c ≡ true → ascii_char (code (ascii_char (code c + 32)) - 32) ≡ c
raised c h =
    let low : code c + 32 < 128 = ground arith in
    let same : code (ascii_char (code c + 32)) - 32 ≡ code c =
      omega (arith, code-ascii_char (code c + 32) low) in
    rw same (Char-path _ _ (code-ascii_char (code c) (ground arith)))

snake_capital :
    (c : Char) (s : String)
    → is_upper c ≡ true
    → to_lower_case (underscored (String.◌∷◌ c s))
      ≡ String.◌∷◌ "_" (String.◌∷◌ (ascii_char (code c + 32)) (to_lower_case (underscored s)))
unfolding to_lower_case underscored
snake_capital c s e = rw e (rw e refl)

snake_other :
    (c : Char) (s : String)
    → is_upper c ≡ false
    → to_lower_case (underscored (String.◌∷◌ c s)) ≡ String.◌∷◌ c (to_lower_case (underscored s))
unfolding to_lower_case underscored
snake_other c s e = rw e (rw e refl)

snake_nil : to_lower_case (underscored String.[]) ≡ String.[]
unfolding to_lower_case underscored
snake_nil = refl

camel_from-snake : (s : String) → IsPlain s → camel_from false (to_lower_case (underscored s)) ≡ s
unfolding camel_from
camel_from-snake String.[] h = ap (camel_from false) snake_nil
camel_from-snake (String.◌∷◌ c s) (plain, _, h) = elim (Bool-cases (is_upper c)) [
  | inl e ↦
      ap (camel_from false) (snake_capital c s e)
      ∙ ap (λ d. String.◌∷◌ d (camel_from false (to_lower_case (underscored s)))) (raised c e)
      ∙ ap (String.◌∷◌ c) (camel_from-snake s h)
  | inr e ↦
      ap (camel_from false) (snake_other c s e)
      ∙ rw plain (ap (String.◌∷◌ c) (camel_from-snake s h))
]

-- The name of a property in ASCII, without underscores, is the camel case of its column's name.
pub camel-column_name :
    (property : String) → IsPlain property → camel (column_name property none) ≡ property
unfolding camel column_name snake
camel-column_name property plain = camel_from-snake property plain

-- Two such properties that share a column are one.
column_name_unique :
    (p q : String) → IsPlain p → IsPlain q → column_name p none ≡ column_name q none → p ≡ q
column_name_unique p q hp hq e = sym (camel-column_name p hp) ∙ ap camel e ∙ camel-column_name q hq
