-- ===== src/Tokens.antt =====
-- src/auth/refresh-token.entity.ts, and what the services of src/auth are given: bcrypt, the JWT
-- library, the random identifiers and the settings are parameters. Times are in seconds, and a day
-- is 86400 of them.
use job_application_api.Prelude.{
  ℕ, ◌+◌, ◌-◌, ◌*◌, suc, String, Bool, true, false, not, ◌&&◌, Option, none, some, ◌==◌,
}
use job_application_api.Prelude.Int.{pos, negsuc}
use job_application_api.Js.{Number}
use job_application_api.Users.{UserRole}

pub record RefreshToken : Type 0 where
  pub id : String
  pub user : String
  pub token_hash : String
  pub expires_at : ℕ
  pub revoked : Bool

-- the table has no unique constraint but its generated key
abbrev pub clash : RefreshToken → RefreshToken → Bool
clash t u = false

-- the claims that `logout` reads from a decoded access token
pub record Claims : Type 0 where
  pub jti : Option String
  pub exp : ℕ

-- the libraries and settings that the service is given
pub record Crypto : Type 0 where
  -- bcrypt, with the salt as an argument
  pub hash : String → String → String
  pub compare : String → String → Bool
  -- `sign` of the two kinds of tokens at a time; `verify` with the refresh secret gives the subject
  pub sign_access : (user email : String) → UserRole → (jti : String) → ℕ → String
  pub sign_refresh : (user : String) → ℕ → String
  pub verify_refresh : String → ℕ → Option String
  pub decode : String → Option Claims
  -- `JWT_REFRESH_EXPIRES_IN`
  pub refresh_expires_in : String

-- what a call takes from its surroundings: the time, a random identifier and a salt
pub record Surroundings : Type 0 where
  pub now : ℕ
  pub uuid : String
  pub salt : String

pub record Tokens : Type 0 where
  pub access_token : String
  pub refresh_token : String

abbrev pub active : String → RefreshToken → Bool
active user t = t.user == user && not t.revoked

abbrev pub of_user : String → RefreshToken → Bool
of_user user t = t.user == user

abbrev pub has_id : String → RefreshToken → Bool
has_id i t = t.id == i

abbrev pub revoke : RefreshToken → RefreshToken
revoke t = record t { revoked = true }

-- `expiresAt.setDate(expiresAt.getDate() + (isNaN(days) ? 7 : days))`
unfoldable pub days_after : ℕ → Number → ℕ
days_after now none = now + 7 * 86400
days_after now (some (pos d)) = now + d * 86400
days_after now (some (negsuc d)) = now - suc d * 86400
