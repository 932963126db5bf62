-- ===== src/Auth/Reuse.antt =====
-- What a refresh asks of a token, given what bcrypt reads of it. bcrypt reads the first 72 bytes of
-- a text, and a refresh token is a JWT whose header is the same in all of them and whose claims
-- begin with the subject: these 72 bytes hold the header and the start of the user's id.
use job_application_api.Prelude.{ℕ, zero, suc, String, ◌≡◌, true, some}
use job_application_api.Repository.{Repository}
use job_application_api.Repository.Rows.{In}
use job_application_api.Redis.{Redis}
use job_application_api.Users
use job_application_api.Users.{User}
use job_application_api.Tokens.{RefreshToken, clash, Crypto, Tokens}
use job_application_api.Auth.Sessions.{rows}
use job_application_api.Auth.Refresh.{S}

-- the first characters of a text
abbrev pub front : ℕ → String → String
front zero t = String.[]
front (suc n) String.[] = String.[]
front (suc n) (String.◌∷◌ c t) = String.◌∷◌ c (front n t)

-- the libraries as they are documented
pub record ReadsFront (crypto : Crypto) : Type 0 where
  pub compares :
      (salt t u : String) → front 72 t ≡ front 72 u → crypto.compare t (crypto.hash salt u) ≡ true
  pub signs :
      (user t : String) (now later : ℕ)
      → crypto.verify_refresh t now ≡ some user
      → front 72 t ≡ front 72 (crypto.sign_refresh user later)

module _ (users : Repository User Users.clash) (tokens : Repository RefreshToken clash)
    (redis : Redis) (crypto : Crypto) where
  -- every session stores the hash of a refresh token that was signed for its user
  abbrev pub AreSigned : S users tokens redis crypto → Type 0
  AreSigned s =
      (row : RefreshToken)
      → In row (rows users tokens redis crypto s)
      → (salt : String) × (later : ℕ) × (row.token_hash
          ≡ crypto.hash salt (crypto.sign_refresh row.user later))
