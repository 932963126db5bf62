-- ===== src/Webhooks/Tests.antt =====
-- The theorems on webhooks at concrete inputs: a server that answers from the second request on.
use job_application_api.Prelude.{ℕ, zero, suc, String, ◌≡◌, refl, inl, none, some, [], ◌∷◌}
use job_application_api.Repository.{Repository}
use job_application_api.Repository.Rows.{In}
use job_application_api.Repository.Memory.{memory}
use job_application_api.Users
use job_application_api.Users.{User, employer}
use job_application_api.Jobs
use job_application_api.Jobs.{Job, open_job}
use job_application_api.Applications
use job_application_api.Applications.{Application, ApplicationStatusChangedEvent, hired}
use job_application_api.Pagination.{paginate}
use job_application_api.Webhooks.{
  WebhookLog, clash, QueryLogs, Reply, response, other_error, Delivery, Store,
  handle_status_changed, find_logs_for_employer,
}
use job_application_api.Webhooks.Retry.{
  Delivers, delivery, handle_status_changed-Delivers, find_logs_for_employer-own,
}

abbrev users : Repository User Users.clash
users = memory Users.clash (λ us. "new") (λ us. 0)

abbrev jobs : Repository Job Jobs.clash
jobs = memory Jobs.clash (λ js. "new") (λ js. 0)

abbrev apps : Repository Application Applications.clash
apps = memory Applications.clash (λ xs. "new") (λ xs. 0)

abbrev logs : Repository WebhookLog clash
logs = memory clash (λ ls. "new") (λ ls. 5)

abbrev post : ℕ → Delivery → Reply
post zero d = other_error
post (suc n) d = response 200

abbrev sign : ApplicationStatusChangedEvent → String
sign p = p.timestamp

abbrev ed : User
ed = record {
  id = "e1";
  email = "ed@x.org";
  password_hash = "p";
  role = employer;
  full_name = "Ed";
  webhook_url = some "http://x.org/";
  created_at = 1;
}

abbrev clerk : Job
clerk = record {
  id = "j1";
  posted_by = "e1";
  title = "Clerk";
  description = "Files";
  location = "Rome";
  status = open_job;
  created_at = 1;
}

abbrev app : Application
app = record {
  id = "a1";
  job = "j1";
  applicant = "u1";
  cover_letter = "Hello";
  status = hired;
  reviewed_by = some "e1";
  created_at = 3;
}

abbrev event : ApplicationStatusChangedEvent
event = record {
  application_id = "a1";
  job_id = "j1";
  applicant_id = "u1";
  employer_id = "e1";
  status = hired;
  timestamp = "now";
}

abbrev log : WebhookLog
log = record {
  id = "l1";
  application = "a1";
  event_type = "application.status_changed";
  payload = event;
  status_code = some 200;
  delivered_at = 5;
}

abbrev store : Store users jobs apps logs post sign
store = record {
  users_table = ed ∷ [];
  jobs_table = clerk ∷ [];
  apps_table = app ∷ [];
  logs_table = log ∷ [];
  sent = [];
}

handle_status_changed-Delivers_example :
    Delivers users jobs apps logs post sign event
      (delivery users jobs apps logs post sign "http://x.org/" event
        ∷ delivery users jobs apps logs post sign "http://x.org/" event
        ∷ [])
      (some 200)
      store
      (handle_status_changed users jobs apps logs post sign event store)
handle_status_changed-Delivers_example =
    handle_status_changed-Delivers users jobs apps logs post sign "http://x.org/" event app ed store
      refl refl refl refl

abbrev first_page : QueryLogs
first_page = record { page = none; limit = none }

find_logs_for_employer-own_example :
    (a : Application) × (job : Job) × In a (app ∷ [])
    × (a.id ≡ "a1")
    × In job (clerk ∷ [])
    × (job.id ≡ a.job)
    × (job.posted_by ≡ "e1")
unfolding find_logs_for_employer paginate
find_logs_for_employer-own_example =
    find_logs_for_employer-own users jobs apps logs post sign "e1" first_page store log (inl refl)
