-- ===== src/Http.antt =====
-- src/common/guards/roles.guard.ts, filters/http-exception.filter.ts and
-- interceptors/transform.interceptor.ts: which roles reach a route, and the body of every response.
pub mod Responses
mod Tests
use job_application_api.Prelude.{
  ℕ, String, Bool, true, false, Option, none, some, List, [], ◌∷◌, any, leb, eqb, ◌==◌,
  if◌then◌else◌,
}
use job_application_api.Exec.{HttpException, Failure, http, fault, Result, ok, err}
use job_application_api.Users.{UserRole, same_role}

-- `requiredRoles.includes(user?.role)`
abbrev pub includes_role : List UserRole → Option UserRole → Bool
includes_role roles none = false
includes_role roles (some role) = any (λ r. same_role r role) roles

-- `RolesGuard.canActivate` on the roles that the route or its class requires
unfoldable pub can_activate : Option (List UserRole) → Option UserRole → Bool
can_activate none role = true
can_activate (some []) role = true
can_activate (some (r ∷ roles)) role = includes_role (r ∷ roles) role

-- the message of an exception's response: a text, the texts of a failed validation, or none
pub data Message : Type 0 where
  absent : Message
  text : String → Message
  texts : List String → Message

-- what was thrown: an HttpException whose response is a text or an object, or any other value
pub data Thrown : Type 0 where
  with_text : (status : ℕ) → String → Thrown
  with_object : (status : ℕ) → (code : Option String) → Message → Thrown
  other : Thrown

pub record ErrorBody : Type 0 where
  pub code : String
  pub message : Option String
  pub status_code : ℕ

-- `STATUS_CODE_MAP[statusCode] || 'INTERNAL_ERROR'`
unfoldable pub status_code_map : ℕ → String
status_code_map n =
    if eqb n 400
    then "VALIDATION_ERROR"
    else if eqb n 401
    then "UNAUTHORIZED"
    else if eqb n 403
    then "FORBIDDEN"
    else if eqb n 404
    then "NOT_FOUND"
    else if eqb n 409
    then "CONFLICT"
    else if eqb n 429
    then "RATE_LIMIT_EXCEEDED"
    else "INTERNAL_ERROR"

-- `exceptionResponse?.code || …`, where an empty code is falsy
abbrev pub code_or : Option String → String → String
code_or none d = d
code_or (some c) d = if c == "" then d else c

abbrev pub first_text : List String → Option String
first_text [] = none
first_text (t ∷ ts) = some t

-- `message || 'An error occurred.'`, and the first of several messages
abbrev pub message_or : Message → Option String
message_or absent = some "An error occurred."
message_or (text m) = some (if m == "" then "An error occurred." else m)
message_or (texts ms) = first_text ms

abbrev pub internal_message : String
internal_message = "An unexpected error occurred."

-- `HttpExceptionFilter.catch`: the body of the response
unfoldable pub catch : Thrown → ErrorBody
unfolding status_code_map
catch (with_text status m) = record {
  code = status_code_map status;
  message = some (if leb 500 status then internal_message else m);
  status_code = status;
}
catch (with_object status code m) = record {
  code = code_or code (status_code_map status);
  message = if leb 500 status then some internal_message else message_or m;
  status_code = status;
}
catch other = record { code = "INTERNAL_ERROR"; message = some internal_message; status_code = 500 }

-- what a handler returns: a plain value, or the envelope of `paginated`
pub data Handled (A M : Type 0) : Type 0 where
  plain : A → Handled A M
  envelope : A → M → Handled A M

pub record ApiResponse (A M : Type 0) : Type 0 where
  pub payload : Option A
  pub meta : Option M
  pub error : Option ErrorBody

-- `TransformInterceptor.intercept`, on what the handler returned
unfoldable pub intercept : {A M : Type 0} → Handled A M → ApiResponse A M
intercept (plain a) = record { payload = some a; meta = none; error = none }
intercept (envelope a m) = record { payload = some a; meta = some m; error = none }

-- what NestJS makes of a failure of a service
abbrev pub thrown : Failure → Thrown
thrown (http e) = with_object e.status (some e.code) (text e.message)
thrown fault = other

-- the response to a call of a service: the interceptor where it returned, else the filter
unfoldable pub respond : {A M : Type 0} → Result (Handled A M) → ApiResponse A M
unfolding intercept catch
respond (ok h) = intercept h
respond (err f) = record { payload = none; meta = none; error = some (catch (thrown f)) }
