-- ===== src/Auth/Tests.antt =====
-- Tests of sessions, and the theorems at concrete inputs. The stand-ins: a hash is the text itself,
-- and a token is its user's id.
use job_application_api.Prelude.{
  ℕ, String, ◌≡◌, ◌≢◌, refl, ◌↔◌, true, false, none, some, List, [], ◌∷◌, ◌==◌, eq_iff, arith,
}
use job_application_api.Exec.{http, ok, err}
use job_application_api.Repository.{Repository}
use job_application_api.Repository.Memory.{memory}
use job_application_api.Redis.Memory.{memory as redis}
use job_application_api.LoginAttempt.{is_locked}
use job_application_api.Users
use job_application_api.Users.{
  UserRole, applicant, User, Profile, profile, credentials, find_by_id, find_by_email,
}
use job_application_api.Tokens.{RefreshToken, clash, Crypto, Surroundings, Tokens}
use job_application_api.Auth.{
  RegisterDto, Store, account, LoginResponse, account_locked, refresh_token_invalid, login, refresh,
  generate_tokens,
}
use job_application_api.Auth.Sessions.{HasUniqueIds}
use job_application_api.Auth.Refresh.{IsRotated, refresh_success}
use job_application_api.Auth.Reuse.{front}
use job_application_api.Auth.Login.{
  opens, IsOpened, account_of, tries, login_iff, login_success, login_lockout,
}
use job_application_api.Auth.Logout.{after, active_tokens, logout-refresh}
use job_application_api.Auth.Register.{Outcome as IsRegistered, register_outcome}

abbrev users : Repository User Users.clash
users = memory Users.clash (λ us. "new") (λ us. 0)

abbrev tokens : Repository RefreshToken clash
tokens = memory clash (λ ts. "new") (λ ts. 0)

abbrev crypto : Crypto
crypto = record {
  hash = λ salt text. text;
  compare = λ text h. text == h;
  sign_access = λ user email role jti now. user;
  sign_refresh = λ user now. user;
  verify_refresh = λ token now. some token;
  decode = λ token. some (record { jti = some token; exp = 1000 });
  refresh_expires_in = "7d";
}

abbrev ada : User
ada = record {
  id = "1";
  email = "ada@x.org";
  password_hash = "secret";
  role = applicant;
  full_name = "Ada";
  webhook_url = none;
  created_at = 1;
}

abbrev session : RefreshToken
session = record { id = "t1"; user = "1"; token_hash = "1"; expires_at = 600; revoked = false }

abbrev other_session : RefreshToken
other_session = record {
  id = "t2";
  user = "1";
  token_hash = "x";
  expires_at = 900;
  revoked = false;
}

abbrev store : Store users tokens redis crypto
store = record { users_table = ada ∷ []; tokens_table = session ∷ []; cache = [] }

abbrev two_sessions : Store users tokens redis crypto
two_sessions = record {
  users_table = ada ∷ [];
  tokens_table = session ∷ other_session ∷ [];
  cache = [];
}

abbrev at : ℕ → Surroundings
at now = record { now = now; uuid = "jti"; salt = "salt" }

session-HasUniqueIds : HasUniqueIds (session ∷ [])
session-HasUniqueIds i = ground arith

abbrev issued : Tokens
issued = record { access_token = "1"; refresh_token = "1" }

refresh_success_example :
    IsRotated users tokens redis crypto "1" "1" (at 10) store refl session-HasUniqueIds issued
unfolding refresh find_by_id generate_tokens
refresh_success_example =
    refresh_success users tokens redis crypto "1" "1" (at 10) store refl session-HasUniqueIds issued
      refl

-- the same libraries, with a hash that keeps the first 72 characters
abbrev front_crypto : Crypto
front_crypto = record crypto {
  hash = λ salt text. front 72 text;
  compare = λ text h. front 72 text == h;
}

abbrev front_store : Store users tokens redis front_crypto
front_store = record { users_table = ada ∷ []; tokens_table = session ∷ []; cache = [] }

login_iff_example :
    ((r : LoginResponse) × ((login users tokens redis crypto "ada@x.org" "secret" (at 10) store).0
        ≡ ok r))
    ↔ ((is_locked redis "ada@x.org" 10 [] ≡ false)
        × (opens users tokens redis crypto "secret" (some ada) ≡ true))
login_iff_example = login_iff users tokens redis crypto "ada@x.org" "secret" (at 10) store

login_success_example :
    (is_locked redis "ada@x.org" 10 [] ≡ false)
    × ((u : User) × (account_of users tokens redis crypto "ada@x.org" store ≡ some u)
        × (("secret" == u.password_hash) ≡ true)
        × IsOpened users tokens redis crypto "ada@x.org" "secret" (at 10) store u)
unfolding login is_locked find_by_email generate_tokens
login_success_example =
    login_success users tokens redis crypto "ada@x.org" "secret" (at 10) store
      (record { user = account (credentials ada); tokens = issued }) refl

abbrev guesses : List (String × Surroundings)
guesses = ("b", at 20) ∷ ("c", at 30) ∷ ("d", at 40) ∷ ("e", at 50) ∷ []

abbrev attacked : Store users tokens redis crypto
attacked = tries users tokens redis crypto "ada@x.org" (("a", at 10) ∷ guesses) store

-- the right password is refused too
login_lockout_example :
    login users tokens redis crypto "ada@x.org" "secret" (at 60) attacked
    ≡ (err (http (account_locked "Too many failed attempts. Please try again later.")), attacked)
login_lockout_example =
    login_lockout users tokens redis crypto "ada@x.org" ("a", at 10) guesses "secret" (at 60) store
      refl refl (refl, (refl, (refl, (refl, (refl, tt)))))
      (omega arith, (omega arith, (omega arith, (omega arith, tt)))) (omega arith)

logout-refresh_example :
    (active_tokens users tokens redis crypto "1"
        (after users tokens redis crypto "1" "jti" (at 10) store)
      ≡ 0)
    × (refresh users tokens redis crypto "1"
          (at 20)
          (after users tokens redis crypto "1" "jti" (at 10) store)
        ≡ (
          err (http (refresh_token_invalid "Refresh token has been revoked.")),
          after users tokens redis crypto "1" "jti" (at 10) store,
        ))
logout-refresh_example =
    logout-refresh users tokens redis crypto "1" "jti" (at 10) store "1" (at 20) refl

abbrev nothing : String
nothing = ""

abbrev identifier : String
identifier = "jti"

identifier-ne : identifier ≢ nothing
identifier-ne h = let e : false ≡ true = (eq_iff identifier nothing).1 h in cc

abbrev ben : RegisterDto
ben = record { email = "ben@x.org"; password = "word"; full_name = "Ben" }

register_outcome_example : IsRegistered users tokens redis crypto ben (at 10) store
register_outcome_example = register_outcome users tokens redis crypto ben (at 10) store
