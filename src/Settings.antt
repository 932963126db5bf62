-- ===== src/Settings.antt =====
-- The settings: the check of src/config/config.module.ts that Joi runs after its own, and the
-- connections that src/config/database.config.ts, src/config/data-source.ts and
-- src/redis/redis.module.ts make of them. The server reads the settings with Joi's defaults, the
-- command line the variables themselves; a port is the number of its variable.
pub mod Check
mod Tests
use job_application_api.Prelude.{
  ℕ, String, Bool, true, false, not, ◌&&◌, Option, none, some, eqb, ◌==◌, if◌then◌else◌,
}
use text.Mathlib.Text.{starts_with}

-- the environment's variables, where they are set
pub record Env : Type 0 where
  pub node_env : Option String
  pub database_url : Option String
  pub db_host : Option String
  pub db_port : Option ℕ
  pub db_username : Option String
  pub db_password : Option String
  pub db_name : Option String
  pub db_ca_cert : Option String
  pub redis_url : Option String
  pub redis_host : Option String
  pub redis_port : Option ℕ
  pub redis_password : Option String

-- `!!value`
abbrev pub given : Option String → Bool
given none = false
given (some t) = not (t == "")

-- `value || d`, of a text and of a number
abbrev pub text_or : String → Option String → String
text_or d none = d
text_or d (some t) = if t == "" then d else t

abbrev pub number_or : ℕ → Option ℕ → ℕ
number_or d none = d
number_or d (some n) = if eqb n 0 then d else n

-- Joi's `default`
abbrev pub default {ℓ} : {A : Type ℓ} → A → Option A → A
default d none = d
default d (some a) = a

-- the message of the error, where there is one
unfoldable pub check : Env → Option String
check env =
    let individual =
      given env.db_host
      && (given env.db_username && (given env.db_password && given env.db_name)) in
    if not (given env.database_url) && not individual
    then some "Provide either DATABASE_URL or all of DB_HOST, DB_USERNAME, DB_PASSWORD, DB_NAME"
    else if not (given env.redis_url) && not (given env.redis_host)
    then some "Provide either REDIS_URL or REDIS_HOST"
    else none

-- `ssl`: off, or on with a certificate
pub data Ssl : Type 0 where
  off : Ssl
  verified : Option String → Ssl

pub data Connection : Type 0 where
  by_url : (url : String) → Ssl → Connection
  by_parts :
      (host : Option String) (port : ℕ) (username password database : Option String) → Connection

abbrev pub is_production : Env → Bool
is_production env = default "development" env.node_env == "production"

abbrev pub ssl : Env → Ssl
ssl env = if is_production env then verified env.db_ca_cert else off

abbrev pub by_individual : Env → Connection
by_individual env =
    by_parts env.db_host (default 5432 env.db_port) env.db_username env.db_password env.db_name

-- `if (databaseUrl)`
abbrev pub url_or : Env → Connection → Option String → Connection
url_or env parts none = parts
url_or env parts (some url) = if url == "" then parts else by_url url (ssl env)

unfoldable pub get_database_config : Env → Connection
get_database_config env = url_or env (by_individual env) env.database_url

-- the connection of the command line, for migrations and the seed
unfoldable pub app_data_source : Env → Connection
app_data_source env =
    url_or env
      (by_parts (some (text_or "localhost" env.db_host)) (number_or 5432 env.db_port)
        (some (text_or "jobapi" env.db_username)) (some (text_or "jobapi_pass" env.db_password))
        (some (text_or "job_applications" env.db_name)))
      env.database_url

pub data RedisConnection : Type 0 where
  redis_by_url : (url : String) (tls : Bool) → RedisConnection
  redis_by_parts : (host : String) (port : ℕ) (password : Option String) → RedisConnection

abbrev pub redis_parts : Env → RedisConnection
redis_parts env =
    redis_by_parts (default "localhost" env.redis_host) (default 6379 env.redis_port)
      env.redis_password

abbrev pub redis_url_or : RedisConnection → Option String → RedisConnection
redis_url_or parts none = parts
redis_url_or parts (some url) =
    if url == "" then parts else redis_by_url url (starts_with url "rediss://")

unfoldable pub redis_client : Env → RedisConnection
redis_client env = redis_url_or (redis_parts env) env.redis_url
