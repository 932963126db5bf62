-- ===== src/Redis.antt =====
-- The Redis server, which the source calls through ioredis and does not contain: the commands that
-- the services use, and what Redis documents of them. Times are in seconds. `entry` is what is
-- stored under a key, with the time at which it expires, if it has one; an expired entry is as good
-- as none.
pub mod Memory
use job_application_api.Prelude.{
  ℕ, ◌+◌, String, ◌≡◌, false, Option, none, some, ltb, ◌==◌, if◌then◌else◌,
}
use job_application_api.Js.Decimal.{decimal}

abbrev pub Entry : Type 0
Entry = Option (String × Option ℕ)

-- the entry, if it has not expired
abbrev pub live : ℕ → Entry → Entry
live now none = none
live now (some (v, none)) = some (v, none)
live now (some (v, some t)) = if ltb now t then some (v, some t) else none

abbrev pub value : Entry → Option String
value none = none
value (some (v, d)) = some v

-- `EXPIRE` on the entry that is there
abbrev pub with_deadline : ℕ → Entry → Entry
with_deadline t none = none
with_deadline t (some (v, d)) = some (v, some t)

pub record Redis : Type 1 where
  pub State : Type 0
  pub entry : String → State → Entry
  -- `GET`
  pub get : String → ℕ → State → Option String
  pub get_lem : (k : String) (now : ℕ) (s : State) → get k now s ≡ value (live now (entry k s))
  -- `INCR`, on an entry that holds a decimal number
  pub incr : String → ℕ → State → ℕ × State
  pub incr_none :
      (k : String) (now : ℕ) (s : State)
      → live now (entry k s) ≡ none
      → ((incr k now s).0 ≡ 1) × (entry k (incr k now s).1 ≡ some (decimal 1, none))
  pub incr_some :
      (k : String) (now n : ℕ) (d : Option ℕ) (s : State)
      → live now (entry k s) ≡ some (decimal n, d)
      → ((incr k now s).0 ≡ n + 1) × (entry k (incr k now s).1 ≡ some (decimal (n + 1), d))
  pub incr_other :
      (k j : String) (now : ℕ) (s : State) → (k == j) ≡ false → entry j (incr k now s).1 ≡ entry j s
  -- `EXPIRE key ttl`
  pub expire : String → ℕ → ℕ → State → State
  pub entry-expire :
      (k j : String) (ttl now : ℕ) (s : State)
      → entry j (expire k ttl now s)
        ≡ (if k == j then with_deadline (now + ttl) (live now (entry j s)) else entry j s)
  -- `DEL`
  pub del : String → State → State
  pub entry-del :
      (k j : String) (s : State) → entry j (del k s) ≡ (if k == j then none else entry j s)
  -- `SET key value EX ttl`
  pub set_ex : String → String → ℕ → ℕ → State → State
  pub entry-set_ex :
      (k j v : String) (ttl now : ℕ) (s : State)
      → entry j (set_ex k v ttl now s) ≡ (if k == j then some (v, some (now + ttl)) else entry j s)
