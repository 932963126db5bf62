-- ===== src/LoginAttempt/Lockout.antt =====
-- When an account is locked.
use job_application_api.Prelude.{
  ℕ, suc, ◌+◌, ◌-◌, ◌≤◌, ◌<◌, String, ◌≡◌, ◌≢◌, refl, inl, inr, false, none, some, List, [], ◌∷◌,
  All, length, ltb, leb, eqb, ◌==◌, eq_iff, eq_refl, arith, if◌then◌else◌, Bool-cases,
}
use job_application_api.Js.Decimal.{decimal, parse_int-decimal}
use job_application_api.Redis.{Redis, live}
use job_application_api.LoginAttempt.{
  max_attempts, lockout_ttl, key_of, record_failed_attempt, is_locked, reset_attempts,
}
use text.Mathlib.TextLemmas.{append_cancel_left}

module _ (redis : Redis) where
  -- the state after failures at these times
  pub failures : String → List ℕ → redis.State → redis.State
  failures email [] s = s
  failures email (now ∷ later) s = failures email later (record_failed_attempt redis email now s).1

  -- n failures are counted, in a window that ends at t
  abbrev pub Counts : String → ℕ → ℕ → redis.State → Type 0
  Counts email n t s = redis.entry (key_of email) s ≡ some (decimal n, some t)

  module _ (email : String) where
    live_of :
        (n t now : ℕ) (s : redis.State)
        → Counts email n t s
        → now < t
        → live now (redis.entry (key_of email) s) ≡ some (decimal n, some t)
    live_of n t now s h lt = rw h (ground arith)

    pub first_failure :
        (now : ℕ) (s : redis.State)
        → live now (redis.entry (key_of email) s) ≡ none
        → Counts email 1 (now + lockout_ttl) (record_failed_attempt redis email now s).1
    unfolding record_failed_attempt
    first_failure now s h =
        let (one, entry) = redis.incr_none (key_of email) now s h in
        rw (one, redis.entry-expire, eq_refl, entry) refl

    pub next_failure :
        (n t now : ℕ) (s : redis.State)
        → 1 ≤ n
        → Counts email n t s
        → now < t
        → ((record_failed_attempt redis email now s).0 ≡ record {
          locked = leb max_attempts (n + 1);
          attempts_remaining = max_attempts - (n + 1);
        })
          × Counts email (n + 1) t (record_failed_attempt redis email now s).1
    unfolding record_failed_attempt
    next_failure n t now s pos_n h lt =
        let (count, entry) =
          redis.incr_some (key_of email) now n (some t) s (live_of n t now s h lt) in
        let more : eqb (n + 1) 1 ≡ false = ground arith in (rw count refl, rw (count, more) entry)

    pub locked_of :
        (n t now : ℕ) (s : redis.State)
        → Counts email n t s
        → is_locked redis email now s ≡ (if ltb now t then leb max_attempts n else false)
    unfolding is_locked
    locked_of n t now s h = elim (Bool-cases (ltb now t)) [
      | inl soon ↦
          rw (redis.get_lem, live_of n t now s h (ground arith), parse_int-decimal, soon) refl
      | inr late ↦
          let gone : live now (redis.entry (key_of email) s) ≡ none = rw h (ground arith) in
          rw (redis.get_lem, gone, late) refl
    ]

    more_failures :
        (n t : ℕ) (later : List ℕ) (s : redis.State)
        → 1 ≤ n
        → Counts email n t s
        → All (λ now. now < t) later
        → Counts email (n + length later) t (failures email later s)
    unfolding failures
    more_failures n t [] s h c early = let e : n + 0 ≡ n = omega arith in rw e c
    more_failures n t (now ∷ later) s h c early =
        let e : n + suc (length later) ≡ n + 1 + length later = omega arith in
        rw e (
          more_failures (n + 1) t later (record_failed_attempt redis email now s).1 (omega arith)
            (next_failure n t now s h c early.0).1 early.1)

    -- After a failure with no count before it, and more failures within its 900 seconds, the
    -- account is locked from the fifth failure on, until the 900 seconds are over, and then no
    -- more.
    pub is_locked-failures :
        (start now : ℕ) (later : List ℕ) (s : redis.State)
        → live start (redis.entry (key_of email) s) ≡ none
        → All (λ t. t < start + lockout_ttl) later
        → is_locked redis email now (failures email (start ∷ later) s)
          ≡ (if ltb now (start + lockout_ttl) then leb max_attempts (1 + length later) else false)
    unfolding failures
    is_locked-failures start now later s new early =
        locked_of (1 + length later) (start + lockout_ttl) now _ (
          more_failures 1 (start + lockout_ttl) later (record_failed_attempt redis email start s).1
            (omega arith) (first_failure start s new) early)

    -- What a failure reports: locked from the fifth on, and how many attempts are left before.
    pub record_failed_attempt_report :
        (start now : ℕ) (later : List ℕ) (s : redis.State)
        → live start (redis.entry (key_of email) s) ≡ none
        → All (λ t. t < start + lockout_ttl) later
        → now < start + lockout_ttl
        → (record_failed_attempt redis email now (failures email (start ∷ later) s)).0 ≡ record {
          locked = leb max_attempts (2 + length later);
          attempts_remaining = max_attempts - (2 + length later);
        }
    unfolding failures
    record_failed_attempt_report start now later s new early soon =
        let counts =
          more_failures 1 (start + lockout_ttl) later (record_failed_attempt redis email start s).1
            (omega arith) (first_failure start s new) early in
        let e : 1 + length later + 1 ≡ 2 + length later = omega arith in
        rw e at (
          (next_failure (1 + length later) (start + lockout_ttl) now _ (omega arith) counts soon).0)

    -- A reset unlocks the account at once.
    pub is_locked-reset_attempts :
        (now : ℕ) (s : redis.State)
        → is_locked redis email now (reset_attempts redis email s) ≡ false
    unfolding is_locked reset_attempts
    is_locked-reset_attempts now s = rw (redis.get_lem, redis.entry-del, eq_refl) refl

    module _ (other : String) (apart : email ≢ other) where
      keys_differ : (key_of email == key_of other) ≡ false
      keys_differ = elim (Bool-cases (key_of email == key_of other)) [
        | inl e ↦
            absurd (apart (append_cancel_left "login_attempts:" email other ((eq_iff _ _).0 e)))
        | inr e ↦ e
      ]

      -- A failure or a reset of one account does not lock or unlock another.
      pub is_locked_other :
          (now before : ℕ) (s : redis.State)
          → (is_locked redis other now (record_failed_attempt redis email before s).1
              ≡ is_locked redis other now s)
            × (is_locked redis other now (reset_attempts redis email s)
                ≡ is_locked redis other now s)
      unfolding is_locked reset_attempts record_failed_attempt
      is_locked_other now before s = (
        elim (Bool-cases (eqb (redis.incr (key_of email) before s).0 1)) [
          | inl e ↦
              rw
                (
                  e,
                  redis.get_lem,
                  redis.entry-expire,
                  keys_differ,
                  redis.incr_other (key_of email) (key_of other) before s keys_differ,
                  redis.get_lem,
                )
                refl
          | inr e ↦
              rw
                (
                  e,
                  redis.get_lem,
                  redis.incr_other (key_of email) (key_of other) before s keys_differ,
                  redis.get_lem,
                )
                refl
        ],
        rw (redis.get_lem, redis.entry-del, keys_differ, redis.get_lem) refl,
      )
