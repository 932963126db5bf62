-- ===== src/LoginAttempt.antt =====
-- src/auth/login-attempt.service.ts: failed logins are counted in Redis under a key for each email.
-- `now` is the time of the call in seconds.
pub mod Lockout
mod Tests
use job_application_api.Prelude.{
  ℕ, ◌-◌, String, Bool, true, false, Option, none, some, leb, eqb, if◌then◌else◌,
}
use job_application_api.Prelude.Int.{ℤ, pos, negsuc}
use job_application_api.Js.{Number, parse_int}
use job_application_api.Redis.{Redis}
use Prim.Native.String.{◌++◌ as concat}

abbrev pub max_attempts : ℕ
max_attempts = 5

abbrev pub lockout_ttl : ℕ
lockout_ttl = 900

abbrev pub key_of : String → String
key_of email = concat "login_attempts:" email

-- `x >= n` for a number that may be NaN
abbrev pub at_least : ℕ → Number → Bool
at_least n none = false
at_least n (some (pos m)) = leb n m
at_least n (some (negsuc m)) = false

pub record Attempt : Type 0 where
  pub locked : Bool
  pub attempts_remaining : ℕ

module _ (redis : Redis) where
  -- `Math.max(0, 5 - attempts)` is the truncated difference
  unfoldable pub record_failed_attempt : String → ℕ → redis.State → Attempt × redis.State
  record_failed_attempt email now s =
      let key = key_of email in
      let (attempts, t) = redis.incr key now s in
      (
        record { locked = leb max_attempts attempts; attempts_remaining = max_attempts - attempts },
        (if eqb attempts 1 then redis.expire key lockout_ttl now t else t),
      )

  reaches_limit : Option String → Bool
  reaches_limit none = false
  reaches_limit (some attempts) = at_least max_attempts (parse_int attempts)

  unfoldable pub is_locked : String → ℕ → redis.State → Bool
  unfolding reaches_limit
  is_locked email now s = reaches_limit (redis.get (key_of email) now s)

  unfoldable pub reset_attempts : String → redis.State → redis.State
  reset_attempts email s = redis.del (key_of email) s
