-- ===== src/Redis/Memory.antt =====
-- A Redis over an association list in memory: the commands and laws of `Redis` can be met.
use job_application_api.Prelude.{
  ℕ, ◌+◌, String, ◌≡◌, refl, false, Option, none, some, List, [], ◌∷◌, ◌==◌, eq_iff, eq_refl, arith,
  if◌then◌else◌,
}
use job_application_api.Prelude.Int.{pos, negsuc}
use job_application_api.Js.{Number, parse_int}
use job_application_api.Js.Decimal.{decimal, parse_int-decimal}
use job_application_api.Redis.{Entry, live, value, with_deadline, Redis}

-- the last entry written for a key counts
abbrev pub Table : Type 0
Table = List (String × Entry)

abbrev pub at : String → Table → Entry
at k [] = none
at k ((j, e) ∷ t) = if j == k then e else at k t

abbrev pub reading : Number → ℕ
reading none = 0
reading (some (pos n)) = n
reading (some (negsuc n)) = 0

abbrev pub next : Entry → ℕ × Entry
next none = (1, some (decimal 1, none))
next (some (v, d)) = (reading (parse_int v) + 1, some (decimal (reading (parse_int v) + 1), d))

abbrev pub put : String → Entry → Table → Table
put k e t = (k, e) ∷ t

abbrev pub increment : String → ℕ → Table → ℕ × Table
increment k now t = let r = next (live now (at k t)) in (r.0, put k r.1 t)

pub increment-none :
    (k : String) (now : ℕ) (t : Table)
    → live now (at k t) ≡ none
    → ((increment k now t).0 ≡ 1) × (at k (increment k now t).1 ≡ some (decimal 1, none))
increment-none k now t h = rw (h, eq_refl) (refl, refl)

pub increment-some :
    (k : String) (now n : ℕ) (d : Option ℕ) (t : Table)
    → live now (at k t) ≡ some (decimal n, d)
    → ((increment k now t).0 ≡ n + 1) × (at k (increment k now t).1 ≡ some (decimal (n + 1), d))
increment-some k now n d t h = rw (h, eq_refl, parse_int-decimal) (refl, refl)

pub increment_other :
    (k j : String) (now : ℕ) (t : Table) → (k == j) ≡ false → at j (increment k now t).1 ≡ at j t
increment_other k j now t h = rw h refl

pub at-deadline :
    (k j : String) (u now : ℕ) (t : Table)
    → at j (put k (with_deadline u (live now (at k t))) t)
      ≡ (if k == j then with_deadline u (live now (at j t)) else at j t)
at-deadline k j u now t = ground (arith, eq_iff k j)

abbrev pub memory : Redis
memory = record {
  State = Table;
  entry = at;
  get = λ k now t. value (live now (at k t));
  get_lem = λ k now t. refl;
  incr = increment;
  incr_none = increment-none;
  incr_some = increment-some;
  incr_other = increment_other;
  expire = λ k ttl now t. put k (with_deadline (now + ttl) (live now (at k t))) t;
  entry-expire = λ k j ttl now t. at-deadline k j (now + ttl) now t;
  del = λ k t. put k none t;
  entry-del = λ k j t. refl;
  set_ex = λ k v ttl now t. put k (some (v, some (now + ttl))) t;
  entry-set_ex = λ k j v ttl now t. refl;
}
