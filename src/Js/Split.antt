-- ===== src/Js/Split.antt =====
-- `split` on one character undoes the joining of texts that lack that character.
use job_application_api.Prelude.{ℕ, code, String, ◌≡◌, ◌≢◌, refl, [], ◌∷◌, arith}
use job_application_api.Js.{split}
use Prim.Native.Char.{Char}
use Prim.Native.String.{◌++◌ as concat}
use text.Mathlib.TextLemmas.{nil-append, cons-append}

-- no character of the text has this code
abbrev pub IsFreeOf : ℕ → String → Type 0
IsFreeOf sep String.[] = Unit
IsFreeOf sep (String.◌∷◌ c s) = (code c ≢ sep) × IsFreeOf sep s

pub split_last : (sep : ℕ) (s : String) → IsFreeOf sep s → split sep s ≡ s ∷ []
unfolding split
split_last sep String.[] h = refl
split_last sep (String.◌∷◌ c s) h = ground (arith, split_last sep s h.1)

pub split-concat :
    (sep : ℕ) (p : String) (c : Char) (rest : String)
    → code c ≡ sep
    → IsFreeOf sep p
    → split sep (concat p (String.◌∷◌ c rest)) ≡ p ∷ split sep rest
unfolding split
split-concat sep String.[] c rest e h = rw nil-append (ground arith)
split-concat sep (String.◌∷◌ d p) c rest e h =
    rw cons-append (ground (arith, split-concat sep p c rest e h.1))
