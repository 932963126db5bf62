-- ===== src/Dtos.antt =====
-- The validation that src/main.ts puts in front of every handler: the decorators of the DTOs in
-- src/auth/dto, src/jobs/dto, src/applications/dto, src/admin/dto and src/webhooks/dto. The tests
-- of class-validator that look into a text are parameters. A request has values of the declared
-- types: a text where a text is wanted, and a member of an enum.
use job_application_api.Prelude.{
  ℕ, String, Bool, true, false, not, ◌&&◌, Option, none, some, leb, ◌==◌,
}
use job_application_api.Prelude.Int.{pos, negsuc}
use job_application_api.Js.{Number}
use job_application_api.Jobs.{
  JobStatus, Property, absent, null, given, CreateJob, UpdateJob, QueryJobs,
}
use job_application_api.Applications.{ApplicationStatus, QueryApplications}
use job_application_api.Auth.{RegisterDto}
use job_application_api.Webhooks.{QueryLogs}
use job_application_api.Ssrf
use job_application_api.Ssrf.{Url}

-- class-validator's tests of a text, and what the check of a URL takes from Node
pub record Checks : Type 0 where
  pub is_email : String → Bool
  pub is_url : String → Bool
  -- the length that `MinLength` and `MaxLength` measure
  pub size : String → ℕ
  pub parse_url : String → Option Url
  pub is_ip : String → ℕ

-- `@IsInt() @Min(1)`, on a number that may be NaN
abbrev pub is_from_1 : Number → Bool
is_from_1 none = false
is_from_1 (some (pos n)) = leb 1 n
is_from_1 (some (negsuc n)) = false

-- `@Max(m)`
abbrev pub is_to : ℕ → Number → Bool
is_to m none = false
is_to m (some (pos n)) = leb n m
is_to m (some (negsuc n)) = true

-- `@IsOptional()`
abbrev pub optional {ℓ} : {A : Type ℓ} → (A → Bool) → Option A → Bool
optional test none = true
optional test (some a) = test a

-- `@IsOptional()` in a body, where null is skipped as well
abbrev pub if_given {ℓ} : {A : Type ℓ} → (A → Bool) → Property A → Bool
if_given test absent = true
if_given test null = true
if_given test (given a) = test a

-- the number that has passed
abbrev pub natural : Number → ℕ
natural none = 0
natural (some (pos n)) = n
natural (some (negsuc n)) = 0

abbrev pub naturals : Option Number → Option ℕ
naturals none = none
naturals (some n) = some (natural n)

pub record LoginDto : Type 0 where
  pub email : String
  pub password : String

pub record QueryJobsDto : Type 0 where
  pub page : Option Number
  pub limit : Option Number
  pub title : Option String
  pub location : Option String
  pub status : Option JobStatus
  pub posted_after : Option String

pub record QueryApplicationsDto : Type 0 where
  pub page : Option Number
  pub limit : Option Number
  pub status : Option ApplicationStatus

-- `page` and `limit` of the logs, which have no DTO: numbers, after the conversion of the pipe
pub record QueryLogsDto : Type 0 where
  pub page : Option Number
  pub limit : Option Number

-- the query that the service is given
abbrev pub query_jobs : QueryJobsDto → QueryJobs
query_jobs q = record {
  page = naturals q.page;
  limit = naturals q.limit;
  title = q.title;
  location = q.location;
  status = q.status;
  posted_after = q.posted_after;
}

abbrev pub query_applications : QueryApplicationsDto → QueryApplications
query_applications q = record {
  page = naturals q.page;
  limit = naturals q.limit;
  status = q.status;
}

abbrev pub query_logs : QueryLogsDto → QueryLogs
query_logs q = record { page = naturals q.page; limit = naturals q.limit }

-- whether a page and a limit, where they are given, are numbers from 1
abbrev pub are_from_1 : Option Number → Option Number → Bool
are_from_1 page limit = optional is_from_1 page && optional is_from_1 limit

-- `page` and `limit` of both queries
abbrev pub is_page : Option Number → Option Number → Bool
is_page page limit = optional is_from_1 page && optional (λ n. is_from_1 n && is_to 50 n) limit

module _ (checks : Checks) where
  -- `@IsNotEmpty() @MaxLength(m)`
  abbrev pub is_text : ℕ → String → Bool
  is_text m t = not (t == "") && leb (checks.size t) m

  abbrev pub is_register : RegisterDto → Bool
  is_register dto =
      checks.is_email dto.email
      && (leb 8 (checks.size dto.password)
          && (leb (checks.size dto.password) 128 && leb (checks.size dto.full_name) 100))

  abbrev pub is_login : LoginDto → Bool
  is_login dto = checks.is_email dto.email

  abbrev pub is_create_job : CreateJob → Bool
  is_create_job dto =
      is_text 200 dto.title && (is_text 10000 dto.description && is_text 200 dto.location)

  abbrev pub is_update_job : UpdateJob → Bool
  is_update_job dto =
      if_given (is_text 200) dto.title
      && (if_given (is_text 10000) dto.description && if_given (is_text 200) dto.location)

  abbrev pub is_create_application : String → Bool
  is_create_application cover_letter = is_text 5000 cover_letter

  abbrev pub is_register_webhook : String → Bool
  is_register_webhook url = checks.is_url url && Ssrf.validate checks.parse_url checks.is_ip url
