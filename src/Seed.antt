-- ===== src/Seed.antt =====
-- src/seed.ts: the script that empties the tables and fills them with sample rows. A `save` of new
-- entities is one transaction. What the migrations declare of removals holds here too: emptying a
-- table empties those that refer to it.
pub mod Sound
use job_application_api.Prelude.{String, Bool, true, Option, none, some}
use job_application_api.Exec.{Exec, Result, ok, err, fault, pure, modify, ◌>>=◌, ◌>>◌}
use job_application_api.Repository.{Repository}
use job_application_api.Users.{UserRole, super_admin, employer, recruiter, applicant, User}
use job_application_api.Jobs.{Job, JobStatus, open_job, closed_job}
use job_application_api.Applications.{Application, pending}
use job_application_api.Api.{Backend}
use job_application_api.Api.Routes.{Store, on_users, on_jobs}

pub committed : {S A : Type 0} → S → Result A × S → Result A × S
committed s (ok a, t) = (ok a, t)
committed s (err f, t) = (err f, s)

-- all of the writes, or none
unfoldable pub transaction : {S A : Type 0} → Exec S A → Exec S A
unfolding committed
transaction m s = committed s (m s)

module _ {A : Type 0} {clash : A → A → Bool} (repo : Repository A clash) where
  pub stored : A → repo.State → Option repo.State → Result A × repo.State
  stored r s none = (err fault, s)
  stored r s (some t) = (ok r, t)

  -- a new entity, with the columns that the database fills
  pub save_new : (repo.State → A) → Exec repo.State A
  unfolding stored
  save_new draft s = stored (draft s) s (repo.insert (draft s) s)

module _ (w : Backend) where
  abbrev pub account :
      (password_hash email : String) → UserRole → String → Option String → w.users.State → User
  account password_hash email role full_name webhook_url s = record {
    id = w.users.next_id s;
    email = email;
    password_hash = password_hash;
    role = role;
    full_name = full_name;
    webhook_url = webhook_url;
    created_at = w.users.now s;
  }

  abbrev pub posting :
      String → (title description location : String) → JobStatus → w.jobs.State → Job
  posting posted_by title description location status s = record {
    id = w.jobs.next_id s;
    posted_by = posted_by;
    title = title;
    description = description;
    location = location;
    status = status;
    created_at = w.jobs.now s;
  }

  abbrev pub letter : String → String → w.apps.State → Application
  letter job user s = record {
    id = w.apps.next_id s;
    job = job;
    applicant = user;
    cover_letter =
        "I am excited to apply for this role. I have strong experience building RESTful APIs with NestJS and TypeScript.";
    status = pending;
    reviewed_by = none;
    created_at = w.apps.now s;
  }

  unfoldable pub clear : Store w → Store w
  clear s = record s {
    apps_table = w.apps.remove (λ a. true) s.apps_table;
    logs_table = w.logs.remove (λ l. true) s.logs_table;
    jobs_table = w.jobs.remove (λ j. true) s.jobs_table;
    users_table = w.users.remove (λ u. true) s.users_table;
    tokens_table = w.tokens.remove (λ t. true) s.tokens_table;
  }

  -- one account per role: the employer and the applicant are used below
  pub save_users : String → Exec w.users.State (User × User)
  unfolding save_new transaction
  save_users hash = transaction (do
    admin ← save_new w.users (account hash "superadmin@jobapi.dev" super_admin "Super Admin" none)
    acme ← save_new w.users (
        account hash "employer@jobapi.dev" employer "Acme Corp"
          (some "https://webhook.site/test-endpoint"))
    jane ← save_new w.users (account hash "recruiter@jobapi.dev" recruiter "Jane Recruiter" none)
    john ← save_new w.users (account hash "applicant@jobapi.dev" applicant "John Applicant" none)
    pure (acme, john))

  -- three jobs of the employer: the first gets an application
  pub save_jobs : String → Exec w.jobs.State Job
  unfolding save_new transaction
  save_jobs poster = transaction (do
    junior ← save_new w.jobs (
        posting poster "Junior API Developer"
          "Build and maintain RESTful APIs using Node.js and NestJS." "Nairobi, Kenya" open_job)
    full_stack ← save_new w.jobs (
        posting poster "Full Stack Developer" "Work across the stack with React and Node.js."
          "Remote" open_job)
    backend ← save_new w.jobs (
        posting poster "Backend Engineer (Closed)" "Senior backend role — position filled."
          "Nairobi, Kenya" closed_job)
    pure junior)

  unfoldable pub on_applications : {A : Type 0} → Exec w.apps.State A → Exec (Store w) A
  on_applications m s = let r = m s.apps_table in (r.0, record s { apps_table = r.1 })

  unfoldable pub seed : String → Exec (Store w) Application
  unfolding clear save_users save_jobs save_new on_applications
  seed hash = do
    modify clear
    people ← on_users w (save_users hash)
    junior ← on_jobs w (save_jobs people.0.id)
    on_applications (save_new w.apps (letter junior.id people.1.id))
