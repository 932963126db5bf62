-- ===== src/Auth.antt =====
-- src/auth/auth.service.ts, jwt.strategy.ts, jwt-auth.guard.ts and the DTOs of src/auth/dto:
-- accounts, sessions and access tokens. A call reads the clock once.
pub mod Sessions
pub mod Register
pub mod Access
pub mod Logout
mod Tests
pub mod Refresh
pub mod Reuse
pub mod Blacklist
pub mod Login
pub mod Tables
use job_application_api.Prelude.{
  ℕ, ◌+◌, ◌-◌, ◌*◌, suc, String, Bool, true, false, not, ◌&&◌, Option, none, some, ltb, ◌==◌,
  if◌then◌else◌,
}
use job_application_api.Prelude.Int.{ℤ, pos, negsuc}
use job_application_api.Js.{Number, parse_int}
use job_application_api.Exec.{
  Exec, Result, ok, err, Failure, fault, pure, throw, throw_if, ◌>>=◌, ◌>>◌, HttpException,
  unauthorized_exception, conflict_exception, not_found_exception,
}
use job_application_api.Repository.{Repository}
use job_application_api.Redis.{Redis}
use job_application_api.LoginAttempt.{Attempt, record_failed_attempt, is_locked, reset_attempts}
use job_application_api.Users
use job_application_api.Users.{
  UserRole, applicant, User, Profile, Credentials, profile, find_by_email, find_by_id,
}
use job_application_api.Tokens.{
  RefreshToken, clash, Claims, Crypto, Surroundings, Tokens, active, of_user, has_id, revoke,
  days_after,
}
use Prim.Native.String.{◌++◌ as concat}

pub record RegisterDto : Type 0 where
  pub email : String
  pub password : String
  pub full_name : String

-- the columns of the user that a login's response repeats
pub record Account : Type 0 where
  pub id : String
  pub email : String
  pub full_name : String
  pub role : UserRole
  pub created_at : ℕ

abbrev pub account : Credentials → Account
account u = record {
  id = u.id;
  email = u.email;
  full_name = u.full_name;
  role = u.role;
  created_at = u.created_at;
}

pub record LoginResponse : Type 0 where
  pub user : Account
  pub tokens : Tokens

abbrev pub account_locked : String → HttpException
account_locked m = unauthorized_exception "ACCOUNT_LOCKED" m

abbrev pub invalid_credentials : HttpException
invalid_credentials = unauthorized_exception "INVALID_CREDENTIALS" "Invalid email or password."

abbrev pub refresh_token_invalid : String → HttpException
refresh_token_invalid m = unauthorized_exception "REFRESH_TOKEN_INVALID" m

abbrev pub blacklist_key : String → String
blacklist_key jti = concat "blacklist:" jti

abbrev pub is_blacklisted : Option String → Bool
is_blacklisted none = false
is_blacklisted (some v) = not (v == "")

abbrev pub invalid_token : HttpException
invalid_token = unauthorized_exception "INVALID_TOKEN" "Missing or invalid access token."

module _ (users : Repository User Users.clash) (tokens : Repository RefreshToken clash)
    (redis : Redis) (crypto : Crypto) where
  pub record Store : Type 0 where
    pub users_table : users.State
    pub tokens_table : tokens.State
    pub cache : redis.State

  -- a call of the users service
  with_users : {A : Type 0} → Exec users.State A → Exec Store A
  with_users m s = let r = m s.users_table in (r.0, record s { users_table = r.1 })

  user_inserted : User → Store → Option users.State → Result Profile × Store
  user_inserted u s none = (err fault, s)
  user_inserted u s (some t) = (ok (profile u), record s { users_table = t })

  -- the row that `register` creates
  abbrev pub new_user : RegisterDto → String → users.State → User
  new_user dto password_hash s = record {
    id = users.next_id s;
    email = dto.email;
    password_hash = password_hash;
    role = applicant;
    full_name = dto.full_name;
    webhook_url = none;
    created_at = users.now s;
  }

  create_user : RegisterDto → String → Exec Store Profile
  create_user dto password_hash s =
      let u = new_user dto password_hash s.users_table in
      user_inserted u s (users.insert u s.users_table)

  email_free : Option Credentials → Exec Store Unit
  email_free none = pure tt
  email_free (some u) =
      throw (conflict_exception "EMAIL_TAKEN" "An account with this email already exists.")

  unfoldable pub register : RegisterDto → Surroundings → Exec Store Profile
  unfolding with_users email_free create_user user_inserted
  register dto env = do
    existing ← with_users (find_by_email users dto.email)
    email_free existing
    create_user dto (crypto.hash env.salt dto.password)

  token_inserted : Tokens → Store → Option tokens.State → Result Tokens × Store
  token_inserted r s none = (err fault, s)
  token_inserted r s (some t) = (ok r, record s { tokens_table = t })

  -- the row that `generateTokens` creates
  unfoldable pub new_token : String → String → Surroundings → tokens.State → RefreshToken
  unfolding days_after
  new_token user refresh_token env s = record {
    id = tokens.next_id s;
    user = user;
    token_hash = crypto.hash env.salt refresh_token;
    expires_at = days_after env.now (parse_int crypto.refresh_expires_in);
    revoked = false;
  }

  -- `generateTokens` of a user with this id, email and role
  unfoldable pub generate_tokens : (id email : String) → UserRole → Surroundings → Exec Store Tokens
  unfolding token_inserted
  generate_tokens id email role env s =
      let refresh_token = crypto.sign_refresh id env.now in
      token_inserted
        (record {
          access_token = crypto.sign_access id email role env.uuid env.now;
          refresh_token = refresh_token;
        })
        s (tokens.insert (new_token id refresh_token env s.tokens_table) s.tokens_table)

  fail_attempt : String → ℕ → Exec Store Attempt
  fail_attempt email now s =
      let r = record_failed_attempt redis email now s.cache in (ok r.0, record s { cache = r.1 })

  -- the part of `login` after the lookup of the account
  check_password :
      (password : String)
      → Surroundings
      → (email : String) → Option Credentials
      → Exec Store LoginResponse
  check_password password env email none = do fail_attempt email env.now; throw invalid_credentials
  check_password password env email (some user) =
      if crypto.compare password user.password_hash
      then (do
        λ s. (ok tt, record s { cache = reset_attempts redis email s.cache })
        tokens ← generate_tokens user.id user.email user.role env
        pure (record { user = account user; tokens = tokens }))
      else (do
        attempt ← fail_attempt email env.now
        throw_if attempt.locked (account_locked "Account locked due to too many failed attempts.")
        throw invalid_credentials)

  unfoldable pub login : (email password : String) → Surroundings → Exec Store LoginResponse
  unfolding with_users check_password fail_attempt
  login email password env = do
    λ s.
        throw_if (is_locked redis email env.now s.cache)
          (account_locked "Too many failed attempts. Please try again later.") s
    user ← with_users (find_by_email users email)
    check_password password env email user

  pub revoke_family : String → Exec Store Unit
  revoke_family user s =
      (ok tt, record s { tokens_table = tokens.update (of_user user) revoke s.tokens_table })

  pub save_revoked : RefreshToken → Exec Store Unit
  save_revoked stored s = (
    ok tt,
    record s {
      tokens_table = tokens.update (has_id stored.id) (λ _. revoke stored) s.tokens_table;
    },
  )

  -- the part of `refresh` after the lookup of the stored token
  check_stored :
      (refresh_token : String)
      → (sub : String) → Surroundings
      → Option RefreshToken
      → Exec Store Tokens
  check_stored refresh_token sub env none =
      throw (refresh_token_invalid "Refresh token has been revoked.")
  check_stored refresh_token sub env (some stored) =
      if stored.revoked
      then (do revoke_family sub; throw (refresh_token_invalid "Refresh token has been revoked."))
      else if crypto.compare refresh_token stored.token_hash
      then (do
        save_revoked stored
        user ← with_users (find_by_id users sub)
        generate_tokens user.id user.email user.role env)
      else (do revoke_family sub; throw (refresh_token_invalid "Refresh token mismatch."))

  check_verified : (refresh_token : String) → Surroundings → Option String → Exec Store Tokens
  check_verified refresh_token env none s =
      throw (refresh_token_invalid "Refresh token is invalid or expired.") s
  check_verified refresh_token env (some sub) s =
      check_stored refresh_token sub env
        (tokens.find_first (λ t. t.expires_at) (active sub) s.tokens_table) s

  unfoldable pub refresh : (refresh_token : String) → Surroundings → Exec Store Tokens
  unfolding check_verified check_stored revoke_family save_revoked with_users
  refresh refresh_token env =
      check_verified refresh_token env (crypto.verify_refresh refresh_token env.now)

  blacklist_jti : Option String → ℕ → ℕ → Store → Store
  blacklist_jti none exp now s = s
  blacklist_jti (some jti) exp now s =
      if jti == ""
      then s
      else if ltb now exp
      then record s { cache = redis.set_ex (blacklist_key jti) "1" (exp - now) now s.cache }
      else s

  blacklist : Option Claims → ℕ → Store → Store
  unfolding blacklist_jti
  blacklist none now s = s
  blacklist (some claims) now s = blacklist_jti claims.jti claims.exp now s

  unfoldable pub logout : (user access_token : String) → Surroundings → Exec Store String
  unfolding blacklist
  logout user access_token env s =
      let t = blacklist (crypto.decode access_token) env.now s in
      (
        ok "Logged out successfully.",
        record t { tokens_table = tokens.update (active user) revoke t.tokens_table },
      )

  -- `JwtStrategy.validate` on the claims of a verified access token. `findById` throws where the
  -- user is missing, so the test after it never fires.
  unfoldable pub validate : (sub jti : String) → ℕ → Exec Store Profile
  unfolding with_users
  validate sub jti now = do
    λ s.
        throw_if (is_blacklisted (redis.get (blacklist_key jti) now s.cache))
          (unauthorized_exception "TOKEN_BLACKLISTED"
            "This token has been invalidated. Please log in again.")
          s
    with_users (find_by_id users sub)

  -- `JwtAuthGuard.handleRequest` on what the strategy returned or threw
  handle_request : Result Profile → Result Profile
  handle_request (err f) = err (Failure.http invalid_token)
  handle_request (ok user) = ok user

  -- a guarded route on a verified access token
  unfoldable pub authenticate : (sub jti : String) → ℕ → Exec Store Profile
  unfolding handle_request validate
  authenticate sub jti now s = let r = validate sub jti now s in (handle_request r.0, r.1)
