-- ===== src/Ssrf/Ranges.antt =====
-- What the range test means for a dotted IPv4 address.
use job_application_api.Prelude.{
  ℕ, ◌+◌, ◌*◌, ◌^◌, ◌≤◌, ◌<◌, String, ◌≡◌, refl, ◌↔◌, ◌⊎◌, true, some, [], ◌∷◌, arith, ◌∙◌, leb,
  ◌&&◌, ◌||◌, false, Bool,
}
use job_application_api.Prelude.Int.{pos}
use job_application_api.Js.{
  parse_int, split, shift-add, unsigned-shift-add, unsigned_shift_0, add_number, shift_left_8,
}
use job_application_api.Js.Split.{IsFreeOf, split_last, split-concat}
use job_application_api.Ssrf.{add_octet, ip_to_number, is_in_private_range}
use Prim.Native.Char.{Char, char}
use Prim.Native.String.{◌++◌ as concat}

-- the text reads as the octet
pub record IsOctet (p : String) (a : ℕ) : Type 0 where
  pub dot_free : IsFreeOf b'.' p
  pub reads : parse_int p ≡ some (pos a)
  pub byte : a < 256

abbrev dot : Char
dot = char b'.' tt

-- `p.q.r.s`
abbrev pub dotted : String → String → String → String → String
dotted p q r s = concat p (String.◌∷◌ dot (concat q (String.◌∷◌ dot (concat r (String.◌∷◌ dot s)))))

-- a step of the loop, while the sum has at most two octets
add_octet-pos :
    (w : ℕ) {a : ℕ} (p : String)
    → IsOctet p a
    → w < 2 ^ 16
    → add_octet (some (pos w)) p ≡ some (pos (w * 256 + a))
unfolding add_octet
add_octet-pos w {a} p h hw = rw h.reads (shift-add w a (omega (arith, h.byte)) h.byte)

-- the last step, with the final `>>> 0`
unsigned-add_octet :
    (w : ℕ) {a : ℕ} (p : String)
    → IsOctet p a
    → w < 2 ^ 24
    → unsigned_shift_0 (add_octet (some (pos w)) p) ≡ w * 256 + a
unfolding add_octet
unsigned-add_octet w {a} p h hw = rw h.reads (unsigned-shift-add w a (omega (arith, h.byte)) h.byte)

module _ (p q r s : String) (a b c d : ℕ) (hp : IsOctet p a) (hq : IsOctet q b) (hr : IsOctet r c)
    (hs : IsOctet s d) where
  split-dotted : split b'.' (dotted p q r s) ≡ p ∷ q ∷ r ∷ s ∷ []
  split-dotted = simp (
    split-concat b'.' p dot _ refl hp.dot_free,
    split-concat b'.' q dot _ refl hq.dot_free,
    split-concat b'.' r dot _ refl hr.dot_free,
    split_last b'.' s hs.dot_free,
  )

  -- The number of a dotted address is the big-endian sum of its octets.
  pub ip_to_number-dotted : ip_to_number (dotted p q r s) ≡ a * 2 ^ 24 + b * 2 ^ 16 + c * 2 ^ 8 + d
  unfolding ip_to_number
  ip_to_number-dotted = rw split-dotted (
      rw (add_octet-pos 0 p hp (omega arith)) (
        rw (add_octet-pos (0 * 256 + a) q hq (omega (arith, hp.byte))) (
          rw (add_octet-pos ((0 * 256 + a) * 256 + b) r hr (omega (arith, hp.byte, hq.byte))) (
            unsigned-add_octet (((0 * 256 + a) * 256 + b) * 256 + c) s hs
              (omega (arith, hp.byte, hq.byte, hr.byte))
            ∙ omega arith))))

-- the blocked IPv4 networks, by the first two octets
abbrev pub IsPrivate : ℕ → ℕ → Type 0
IsPrivate a b =
    (a ≡ 10)
    ⊎ (a ≡ 172) × (16 ≤ b) × (b ≤ 31)
    ⊎ (a ≡ 192) × (b ≡ 168)
    ⊎ (a ≡ 127)
    ⊎ (a ≡ 169) × (b ≡ 254)
    ⊎ (a ≡ 0)

between : ℕ → ℕ → ℕ → Bool
between lo hi n = leb lo n && leb n hi

in_some_range : ℕ → Bool
unfolding between
in_some_range n =
    between 167772160 184549375 n
    || (between 2886729728 2887778303 n
        || (between 3232235520 3232301055 n
            || (between 2130706432 2147483647 n
                || (between 2851995648 2852061183 n || (between 0 16777215 n || false)))))

is_in_private_range_lem : (ip : String) → is_in_private_range ip ≡ in_some_range (ip_to_number ip)
unfolding is_in_private_range in_some_range ip_to_number add_octet parse_int split unsigned_shift_0
    add_number shift_left_8
is_in_private_range_lem ip = refl

in_some_range_iff :
    (a b c d : ℕ)
    → a < 256
    → b < 256
    → c < 256
    → d < 256
    → (in_some_range (a * 2 ^ 24 + b * 2 ^ 16 + c * 2 ^ 8 + d) ≡ true) ↔ IsPrivate a b
unfolding in_some_range
in_some_range_iff a b c d ha hb hc hd = ground arith

-- A dotted address of four octets is in a private range exactly when the first two say so.
pub is_in_private_range-dotted_iff :
    (p q r s : String) (a b c d : ℕ)
    → IsOctet p a
    → IsOctet q b
    → IsOctet r c
    → IsOctet s d
    → (is_in_private_range (dotted p q r s) ≡ true) ↔ IsPrivate a b
is_in_private_range-dotted_iff p q r s a b c d hp hq hr hs =
    rw (is_in_private_range_lem (dotted p q r s), ip_to_number-dotted p q r s a b c d hp hq hr hs)
      (in_some_range_iff a b c d hp.byte hq.byte hr.byte hs.byte)
