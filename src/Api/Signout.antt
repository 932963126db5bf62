-- ===== src/Api/Signout.antt =====
-- What a signed-out access token is still good for.
use job_application_api.Prelude.{◌<◌, String, ◌≡◌, ◌≢◌, none, some, List}
use job_application_api.Tokens.{Claims}
use job_application_api.Auth
use job_application_api.Api.{Backend, Call, guarded, logout, access_token, Step}
use job_application_api.Api.Routes.{Store}
use job_application_api.Api.Serve.{serve, run}
use job_application_api.Auth.Blacklist.{ExpireAt}

module _ (w : Backend) (c : Call) (s : Store w) where
  abbrev pub signout : Call
  signout = record c { request = guarded logout }

  -- the store after the sign-out
  abbrev pub after : Store w
  after = (serve w signout s).1

  module _ (claims : Claims) (jti : String)
      (decoded : w.crypto.decode (access_token c.authorization) ≡ some claims)
      (has_jti : claims.jti ≡ some jti) (nonempty : jti ≢ "") (in_time : c.env.now < claims.exp)
      (signed_out : (serve w signout s).0.answer.error ≡ none) where
    module _ (unique : ExpireAt w.users w.tokens w.redis w.crypto jti claims.exp)
        (steps : List Step) where
      abbrev pub later : Store w
      later = run w steps after
