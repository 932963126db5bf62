-- ===== src/Api.antt =====
-- The controllers: src/auth/auth.controller.ts, jobs/jobs.controller.ts,
-- applications/applications.controller.ts, admin/admin.controller.ts and
-- webhooks/webhooks.controller.ts, with the guards, the validation and the answer around them, over
-- one store of all tables.
pub mod Routes
pub mod Serve
pub mod Access
pub mod Tables
pub mod Sound
pub mod Marked
pub mod Signout
pub mod Reviews
pub mod Events
pub mod Pages
pub mod Atomic
mod Tests
use job_application_api.Prelude.{
  ℕ, String, Bool, true, false, Option, none, some, List, [], ◌∷◌, ◌++◌, ◌==◌, if◌then◌else◌,
}
use job_application_api.Js.{Number, remove_first}
use job_application_api.Exec.{
  Exec, Result, ok, err, Failure, http, fault, HttpException, forbidden_exception,
}
use job_application_api.Repository.{Repository}
use job_application_api.Redis.{Redis}
use job_application_api.Users
use job_application_api.Users.{
  UserRole, super_admin, employer, recruiter, applicant, User, Profile, Listing,
}
use job_application_api.Pagination.{Paginated}
use job_application_api.Jobs
use job_application_api.Jobs.{Job, Caller, CreateJob, UpdateJob}
use job_application_api.Applications
use job_application_api.Applications.{Application, ApplicationStatus, ApplicationStatusChangedEvent}
use job_application_api.Tokens
use job_application_api.Tokens.{RefreshToken, Crypto, Surroundings, Tokens}
use job_application_api.Auth
use job_application_api.Auth.{RegisterDto, LoginResponse, invalid_token}
use job_application_api.Webhooks
use job_application_api.Webhooks.{WebhookLog, QueryLogs, Delivery, Reply}
use job_application_api.Http.{
  can_activate, Thrown, with_object, Message, texts, catch, thrown, Handled, plain, envelope,
  ApiResponse, intercept,
}
use job_application_api.Dtos.{
  Checks, LoginDto, QueryJobsDto, QueryApplicationsDto, query_jobs, query_applications,
  QueryLogsDto, is_page, is_register, is_login, is_create_job, is_update_job, is_create_application,
  is_register_webhook,
}

pub record AccessClaims : Type 0 where
  pub sub : String
  pub jti : String

-- the routes without a guard, with what their handlers take
pub data PublicRequest : Type 0 where
  register : RegisterDto → PublicRequest
  login : LoginDto → PublicRequest
  refresh : String → PublicRequest
  find_jobs : QueryJobsDto → PublicRequest
  find_job : String → PublicRequest

-- the routes behind `JwtAuthGuard`
pub data GuardedRequest : Type 0 where
  logout : GuardedRequest
  create_job : CreateJob → GuardedRequest
  update_job : String → UpdateJob → GuardedRequest
  remove_job : String → GuardedRequest
  find_applications : QueryApplicationsDto → GuardedRequest
  find_mine : QueryApplicationsDto → GuardedRequest
  apply : (job_id cover_letter : String) → GuardedRequest
  update_status : String → ApplicationStatus → GuardedRequest
  find_users : GuardedRequest
  update_role : String → UserRole → GuardedRequest
  register_webhook : String → GuardedRequest
  find_logs : QueryLogsDto → GuardedRequest

pub data Request : Type 0 where
  public : PublicRequest → Request
  guarded : GuardedRequest → Request

-- a request with its `Authorization` header, and what it finds of the world
pub record Call : Type 0 where
  pub authorization : Option String
  pub request : Request
  pub env : Surroundings
  pub timestamp : String

-- what happens to the server: a request, or the turn of an event that waits
pub data Step : Type 0 where
  calls : Call → Step
  delivers : Step

-- the tables, and everything else that the application is given
pub record Backend : Type 1 where
  pub users : Repository User Users.clash
  pub jobs : Repository Job Jobs.clash
  pub apps : Repository Application Applications.clash
  pub tokens : Repository RefreshToken Tokens.clash
  pub logs : Repository WebhookLog Webhooks.clash
  pub redis : Redis
  pub crypto : Crypto
  -- Passport: the token of an `Authorization` header, and the claims of one that is good at a time
  pub bearer : String → Option String
  pub verify_access : String → ℕ → Option AccessClaims
  pub checks : Checks
  -- the messages of a failed validation
  pub violations : Request → List String
  pub like : String → String → Bool
  pub date : String → ℕ
  pub post : ℕ → Delivery → Reply
  pub sign : ApplicationStatusChangedEvent → String
  -- whether PostgreSQL reads a text as a UUID
  pub is_uuid : String → Bool
  -- what TypeORM and PostgreSQL make of a page or a limit that is no number from 1, over the rows
  -- of the query in their order
  pub odd_page : Option Number → Option Number → List WebhookLog → Result (Paginated WebhookLog)

-- `@Roles(…)` of the handler or its class
unfoldable pub required_roles : GuardedRequest → Option (List UserRole)
required_roles logout = none
required_roles (create_job dto) = some (employer ∷ super_admin ∷ [])
required_roles (update_job id dto) = some (employer ∷ super_admin ∷ [])
required_roles (remove_job id) = some (employer ∷ super_admin ∷ [])
required_roles (find_applications query) = some (recruiter ∷ employer ∷ super_admin ∷ [])
required_roles (find_mine query) = none
required_roles (apply job_id cover_letter) = some (applicant ∷ [])
required_roles (update_status id status) = some (recruiter ∷ employer ∷ super_admin ∷ [])
required_roles find_users = some (super_admin ∷ [])
required_roles (update_role id role) = some (super_admin ∷ [])
required_roles (register_webhook url) = some (employer ∷ super_admin ∷ [])
required_roles (find_logs query) = some (employer ∷ super_admin ∷ [])

-- what a response carries
pub data Body : Type 0 where
  of_profile : Profile → Body
  of_login : LoginResponse → Body
  of_tokens : Tokens → Body
  of_message : String → Body
  of_job : Job → Body
  of_jobs : List Job → Body
  of_application : Application → Body
  of_applications : List Application → Body
  of_users : List Listing → Body
  of_webhook : Option String → Body
  of_logs : List WebhookLog → Body

pub record PageMeta : Type 0 where
  pub page : ℕ
  pub limit : ℕ
  pub total : ℕ
  pub total_pages : ℕ

pub record Response : Type 0 where
  pub status : ℕ
  pub answer : ApiResponse Body PageMeta

-- `@HttpCode(…)`, or the default of the method
unfoldable pub status_of : Request → ℕ
status_of (public (register dto)) = 201
status_of (guarded (create_job dto)) = 201
status_of (guarded (apply job_id cover_letter)) = 201
status_of (guarded (register_webhook url)) = 201
status_of (public r) = 200
status_of (guarded r) = 200

abbrev pub caller : Profile → Caller
caller p = record { id = p.id; role = p.role }

abbrev pub paginated : {A : Type 0} → (List A → Body) → Paginated A → Handled Body PageMeta
paginated body p =
    envelope (body p.rows)
      (record { page = p.page; limit = p.limit; total = p.total; total_pages = p.total_pages })

-- `req.headers.authorization?.replace('Bearer ', '')`
abbrev pub access_token : Option String → String
access_token none = ""
access_token (some header) = remove_first "Bearer " header

-- what NestJS throws for a guard that returns false: its response has no code
abbrev pub forbidden : HttpException
forbidden = forbidden_exception "" "Forbidden resource"
