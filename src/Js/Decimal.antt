-- ===== src/Js/Decimal.antt =====
-- The decimal print of a number, which `parseInt` reads back.
use job_application_api.Prelude.{
  ℕ, zero, suc, ◌+◌, ◌-◌, ◌/◌, ◌%◌, ◌<◌, code, String, ◌≡◌, refl, inl, inr, true, some, ltb, arith,
  if◌then◌else◌, Bool-cases, ap, ◌∙◌,
}
use job_application_api.Prelude.Int.{pos}
use job_application_api.Js.{ascii_char, is_digit, leading_digits, parse_int, IsScalar-lt}
use Prim.Native.Char.{Char, char, nul}
use native.Mathlib.Decide.{dec_lt}
use mathlib.Core.Logic.{dite}

pub code-ascii_char : (n : ℕ) → n < 128 → code (ascii_char n) ≡ n
unfolding ascii_char
code-ascii_char n h =
    elim (dec_lt n 128) as (λ d. code (dite d (λ p. char n (IsScalar-lt n p)) (λ _. nul)) ≡ n) [
      | yes p ↦ refl
      | no p ↦ absurd (p h)
    ]

digit : ℕ → Char
digit n = ascii_char (b'0' + n)

code-digit : (n : ℕ) → n < 10 → code (digit n) ≡ b'0' + n
unfolding digit
code-digit n h = code-ascii_char (b'0' + n) (omega arith)

digits : ℕ → ℕ → String → String
digits zero n out = out
digits (suc f) n out =
    let more = digits f (n / 10) (String.◌∷◌ (digit (n % 10)) out) in
    if ltb n 10 then String.◌∷◌ (digit n) out else more

-- a text that starts with a digit and reads as the number
IsPrint : ℕ → String → String → Type 0
IsPrint n out String.[] = ⊥
IsPrint n out (String.◌∷◌ c s) =
    (is_digit (code c) ≡ true) × (leading_digits (code c - b'0') s ≡ leading_digits n out)

last_digit :
    (n : ℕ) (out : String)
    → leading_digits (n / 10) (String.◌∷◌ (digit (n % 10)) out) ≡ leading_digits n out
unfolding leading_digits
last_digit n out =
    let c : code (digit (n % 10)) ≡ b'0' + n % 10 = code-digit (n % 10) (omega arith) in
    rw c (
      let d : is_digit (b'0' + n % 10) ≡ true = unfold is_digit in ground arith in
      rw d (ap (λ k. leading_digits k out) (omega arith)))

IsPrint-step :
    (n m : ℕ) (out : String) (c : Char) (s : String)
    → leading_digits m (String.◌∷◌ c out) ≡ leading_digits n out
    → IsPrint m (String.◌∷◌ c out) s
    → IsPrint n out s
unfolding IsPrint
IsPrint-step n m out c String.[] e h = h
IsPrint-step n m out c (String.◌∷◌ d s) e h = (h.0, h.1 ∙ e)

digits-IsPrint : (f n : ℕ) (out : String) → n < f → IsPrint n out (digits f n out)
unfolding digits IsPrint leading_digits
digits-IsPrint zero n out h = absurd (omega arith)
digits-IsPrint (suc f) n out h = elim (Bool-cases (ltb n 10)) [
  | inl small ↦
      let c : code (digit n) ≡ b'0' + n = code-digit n (ground arith) in
      rw small (ground arith, rw c (ap (λ k. leading_digits k out) (omega arith)))
  | inr large ↦ rw large (
      IsPrint-step n (n / 10) out (digit (n % 10)) _ (last_digit n out)
        (digits-IsPrint f (n / 10) (String.◌∷◌ (digit (n % 10)) out) (ground arith)))
]

-- the decimal print, as `String(n)` gives it
unfoldable pub decimal : ℕ → String
unfolding digits digit ascii_char
decimal n = digits (suc n) n String.[]

parse_int_print : (n : ℕ) (s : String) → IsPrint n String.[] s → parse_int s ≡ some (pos n)
unfolding parse_int IsPrint
parse_int_print n String.[] h = absurd h
parse_int_print n (String.◌∷◌ c s) h = ground arith

-- `parseInt` reads the decimal print back.
pub parse_int-decimal : (n : ℕ) → parse_int (decimal n) ≡ some (pos n)
unfolding decimal
parse_int-decimal n =
    parse_int_print n (digits (suc n) n String.[])
      (digits-IsPrint (suc n) n String.[] (omega arith))
