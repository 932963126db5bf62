-- ===== src/Jobs.antt =====
-- src/jobs/job.entity.ts, the DTOs of src/jobs/dto and jobs.service.ts: job postings and the
-- service over their table. A loaded relation is the id of its row; a string filter that is empty
-- is falsy. SQL's `LIKE` over lower case and `new Date` are parameters. The id that a method takes
-- is a UUID; Api.Routes says what other texts give.
pub mod Ownership
pub mod Tables
mod Tests
use job_application_api.Prelude.{
  ℕ, String, Bool, true, false, not, ◌&&◌, ◌||◌, Option, none, some, leb, ◌==◌, if◌then◌else◌,
}
use job_application_api.Exec.{
  Exec, Result, ok, err, fault, pure, throw, throw_if, ◌>>=◌, ◌>>◌, forbidden_exception,
  not_found_exception,
}
use job_application_api.Repository.{Repository}
use job_application_api.Users.{UserRole, is_super_admin}
use job_application_api.Pagination.{Paginated, paginate, default}

pub data JobStatus : Type 0 where
  open_job closed_job : JobStatus

abbrev pub same_status : JobStatus → JobStatus → Bool
same_status open_job open_job = true
same_status closed_job closed_job = true
same_status _ _ = false

pub record Job : Type 0 where
  pub id : String
  pub posted_by : String
  pub title : String
  pub description : String
  pub location : String
  pub status : JobStatus
  pub created_at : ℕ

-- the table has no unique constraint but its generated key
abbrev pub clash : Job → Job → Bool
clash j k = false

-- what the services read of the authenticated user
pub record Caller : Type 0 where
  pub id : String
  pub role : UserRole

pub record CreateJob : Type 0 where
  pub title : String
  pub description : String
  pub location : String

-- a property of the body: absent, null, which `@IsOptional` lets through, or a value
pub data Property {ℓ} (A : Type ℓ) : Type ℓ where
  absent null : Property A
  given : A → Property A

pub record UpdateJob : Type 0 where
  pub title : Property String
  pub description : Property String
  pub location : Property String
  pub status : Property JobStatus

pub record QueryJobs : Type 0 where
  pub page : Option ℕ
  pub limit : Option ℕ
  pub title : Option String
  pub location : Option String
  pub status : Option JobStatus
  pub posted_after : Option String

abbrev pub has_id : String → Job → Bool
has_id i j = j.id == i

-- what a property assigns to a column that holds a value
abbrev pub assigned_value {ℓ} : {A : Type ℓ} → A → Property A → A
assigned_value old absent = old
assigned_value old null = old
assigned_value old (given a) = a

abbrev pub is_null {ℓ} : {A : Type ℓ} → Property A → Bool
is_null absent = false
is_null null = true
is_null (given a) = false

-- whether the request assigns null to a column; all four are NOT NULL
unfoldable pub has_null : UpdateJob → Bool
has_null dto =
    is_null dto.title || (is_null dto.description || (is_null dto.location || is_null dto.status))

-- `Object.assign(job, dto)` for a request without null: a property that it lacks is not assigned
unfoldable pub assign : UpdateJob → Job → Job
assign dto j = record j {
  title = assigned_value j.title dto.title;
  description = assigned_value j.description dto.description;
  location = assigned_value j.location dto.location;
  status = assigned_value j.status dto.status;
}

-- `if (filter) qb.andWhere(…)` over a string
abbrev pub where_text : Option String → (String → Bool) → Bool
where_text none test = true
where_text (some t) test = if t == "" then true else test t

abbrev pub where_some {ℓ} : {A : Type ℓ} → Option A → (A → Bool) → Bool
where_some none test = true
where_some (some a) test = test a

module _ (like : String → String → Bool) (date : String → ℕ) where
  unfoldable pub matches : QueryJobs → Job → Bool
  matches query job =
      where_text query.title (λ t. like job.title t)
      && (where_text query.location (λ l. job.location == l)
          && (where_some query.status (λ st. same_status job.status st)
              && where_text query.posted_after (λ d. leb (date d) job.created_at)))

module _ (jobs : Repository Job clash) where
  inserted : Job → jobs.State → Option jobs.State → Result Job × jobs.State
  inserted job s none = (err fault, s)
  inserted job s (some t) = (ok job, t)

  found : Option Job → Exec jobs.State Job
  found none = throw (not_found_exception "JOB_NOT_FOUND" "Job not found.")
  found (some job) = pure job

  -- `save` of the loaded entity writes all its columns
  save : Job → Exec jobs.State Job
  save job s = (ok job, jobs.update (has_id job.id) (λ _. job) s)

  -- `Object.assign`, and the save: PostgreSQL refuses null in these columns, and writes nothing
  save_assigned : UpdateJob → Job → Exec jobs.State Job
  unfolding save
  save_assigned dto job s = if has_null dto then (err fault, s) else save (assign dto job) s

  delete : Job → Exec jobs.State Unit
  delete job s = (ok tt, jobs.remove (has_id job.id) s)

  unfoldable pub create : CreateJob → Caller → Exec jobs.State Job
  unfolding inserted
  create dto user s =
      let job : Job = record {
        id = jobs.next_id s;
        posted_by = user.id;
        title = dto.title;
        description = dto.description;
        location = dto.location;
        status = open_job;
        created_at = jobs.now s;
      } in
      inserted job s (jobs.insert job s)

  unfoldable pub find_all :
      (like : String → String → Bool) (date : String → ℕ) → QueryJobs → jobs.State → Paginated Job
  find_all like date query =
      paginate jobs (λ j. j.created_at) (matches like date query) (default 1 query.page)
        (default 10 query.limit)

  unfoldable pub find_one : String → Exec jobs.State Job
  unfolding found
  find_one id s = found (jobs.find_one (has_id id) s) s

  abbrev may_not_manage : Caller → Job → Bool
  may_not_manage user job = not (is_super_admin user.role) && not (job.posted_by == user.id)

  unfoldable pub update : String → UpdateJob → Caller → Exec jobs.State Job
  unfolding find_one save_assigned
  update id dto user = do
    job ← find_one id
    throw_if (may_not_manage user job)
        (forbidden_exception "FORBIDDEN" "You can only update your own job postings.")
    save_assigned dto job

  unfoldable pub remove : String → Caller → Exec jobs.State String
  unfolding find_one delete
  remove id user = do
    job ← find_one id
    throw_if (may_not_manage user job)
        (forbidden_exception "FORBIDDEN" "You can only delete your own job postings.")
    delete job
    pure "Job deleted successfully."
