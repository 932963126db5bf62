-- ===== src/Js.antt =====
-- The functions of the JavaScript language that the source calls: numbers (an integer, or NaN as
-- `none`), `parseInt`, the 32-bit shifts, `split` on one character, and `toLowerCase` on ASCII.
-- Numbers are exact below 2 ^ 53; rounding above that is not modelled.
pub mod Split
pub mod Decimal
use job_application_api.Prelude.{
  ℕ, ◌+◌, ◌-◌, ◌*◌, ◌^◌, ◌%◌, ◌<◌, Char, code, String, ◌≡◌, refl, Bool, false, ◌&&◌, ◌||◌, Option,
  none, some, List, [], ◌∷◌, ltb, leb, eqb, ◌==◌, if◌then◌else◌, arith,
}
use job_application_api.Prelude.Int.{ℤ, pos, negsuc, ◌+ℤ◌}
use Prim.Native.Nat.{zero, suc, compare, Ordering}
use Prim.Native.Char.{char, nul, IsScalar}
use mathlib.Core.Logic.{dite}
use native.Mathlib.Decide.{dec_lt}

abbrev pub Number : Type 0
Number = Option ℤ

unfoldable pub is_digit : ℕ → Bool
is_digit c = leb b'0' c && leb c b'9'

-- the digits from here on, up to the first character that is none
unfoldable pub leading_digits : ℕ → String → ℕ
unfolding is_digit
leading_digits n String.[] = n
leading_digits n (String.◌∷◌ c s) =
    if is_digit (code c) then leading_digits (n * 10 + (code c - b'0')) s else n

unfoldable pub unsigned : String → Option ℕ
unfolding is_digit leading_digits
unsigned String.[] = none
unsigned (String.◌∷◌ c s) =
    if is_digit (code c) then some (leading_digits (code c - b'0') s) else none

is_white : ℕ → Bool
is_white c =
    leb 9 c && leb c 13
    || eqb c 32
    || eqb c 160
    || eqb c 0x1680
    || leb 0x2000 c && leb c 0x200a
    || eqb c 0x2028
    || eqb c 0x2029
    || eqb c 0x202f
    || eqb c 0x205f
    || eqb c 0x3000
    || eqb c 0xfeff

negate : ℕ → ℤ
negate zero = pos 0
negate (suc n) = negsuc n

positive : Option ℕ → Number
positive none = none
positive (some n) = some (pos n)

negative : Option ℕ → Number
unfolding negate
negative none = none
negative (some n) = some (negate n)

-- `parseInt(s, 10)`
unfoldable pub parse_int : String → Number
unfolding is_white unsigned positive negative
parse_int String.[] = none
parse_int (String.◌∷◌ c s) =
    let rest = parse_int s in
    if is_white (code c)
    then rest
    else if eqb (code c) b'-'
    then negative (unsigned s)
    else if eqb (code c) b'+'
    then positive (unsigned s)
    else positive (unsigned (String.◌∷◌ c s))

push_head : Char → List String → List String
push_head c [] = (String.◌∷◌ c String.[]) ∷ []
push_head c (p ∷ ps) = String.◌∷◌ c p ∷ ps

-- `s.split(c)` for a separator of one character
unfoldable pub split : ℕ → String → List String
unfolding push_head
split sep String.[] = String.[] ∷ []
split sep (String.◌∷◌ c s) =
    let rest = split sep s in if eqb (code c) sep then String.[] ∷ rest else push_head c rest

abbrev pub u32_mod : ℕ
u32_mod = 2 ^ 32

-- ToUint32 of an integer
unfoldable pub to_uint32 : ℤ → ℕ
to_uint32 (pos n) = n % u32_mod
to_uint32 (negsuc n) = u32_mod - 1 - n % u32_mod

-- the integer that a 32-bit pattern stands for in ToInt32
unfoldable pub signed : ℕ → ℤ
signed w = if ltb w (2 ^ 31) then pos w else negsuc (u32_mod - w - 1)

-- `x << 8` and `x >>> 0`; NaN converts to 0
unfoldable pub shift_left_8 : Number → ℤ
unfolding to_uint32 signed
shift_left_8 none = pos 0
shift_left_8 (some z) = signed (to_uint32 z * 256 % u32_mod)

unfoldable pub unsigned_shift_0 : Number → ℕ
unfolding to_uint32
unsigned_shift_0 none = 0
unsigned_shift_0 (some z) = to_uint32 z

-- `z + n`
unfoldable pub add_number : ℤ → Number → Number
unfolding ◌+ℤ◌
add_number z none = none
add_number z (some n) = some (z +ℤ n)

IsScalar-lt : (n : ℕ) → n < 128 → IsScalar n
IsScalar-lt n h = let e : compare n 55296 ≡ Ordering.lt = ground arith in rw e tt

-- the character with an ASCII code
pub ascii_char : ℕ → Char
unfolding dec_lt IsScalar-lt
ascii_char n = dite (dec_lt n 128) (λ h. char n (IsScalar-lt n h)) (λ _. nul)

unfoldable pub to_lower_case : String → String
unfolding ascii_char
to_lower_case String.[] = String.[]
to_lower_case (String.◌∷◌ c s) =
    String.◌∷◌ (if leb b'A' (code c) && leb (code c) b'Z' then ascii_char (code c + 32) else c)
      (to_lower_case s)

-- `(x << 8) + b` is exact while the result fits in 31 bits.
pub shift-add :
    (w b : ℕ)
    → w * 256 + b < 2 ^ 31
    → b < 256
    → add_number (shift_left_8 (some (pos w))) (some (pos b)) ≡ some (pos (w * 256 + b))
unfolding add_number shift_left_8
shift-add w b h hb = ground arith

-- `((x << 8) + b) >>> 0` is exact while the result fits in 32 bits.
pub unsigned-shift-add :
    (w b : ℕ)
    → w * 256 + b < 2 ^ 32
    → b < 256
    → unsigned_shift_0 (add_number (shift_left_8 (some (pos w))) (some (pos b))) ≡ w * 256 + b
unfolding unsigned_shift_0 add_number shift_left_8
unsigned-shift-add w b h hb = ground arith

lowered : to_lower_case "LocalHost-1Z" ≡ "localhost-1z"
unfolding to_lower_case
lowered = refl

parsed :
    (parse_int "  12ab" ≡ some (pos 12))
    × (parse_int "-7" ≡ some (negsuc 6))
    × (parse_int "x1" ≡ none)
unfolding parse_int
parsed = (refl, refl, refl)

-- `xs.includes(s)`
unfoldable pub includes : List String → String → Bool
includes [] s = false
includes (x ∷ xs) s = x == s || includes xs s

-- the rest of a text behind a prefix
abbrev pub after_prefix : String → String → Option String
after_prefix String.[] s = some s
after_prefix (String.◌∷◌ p ps) String.[] = none
after_prefix (String.◌∷◌ p ps) (String.◌∷◌ c s) =
    let rest = after_prefix ps s in if eqb (code p) (code c) then rest else none

abbrev pub or_text : Option String → String → String
or_text none s = s
or_text (some r) s = r

-- `s.replace(p, '')` for a text `p`: its first occurrence is taken out
unfoldable pub remove_first : String → String → String
remove_first p String.[] = String.[]
remove_first p (String.◌∷◌ c s) =
    or_text (after_prefix p (String.◌∷◌ c s)) (String.◌∷◌ c (remove_first p s))
