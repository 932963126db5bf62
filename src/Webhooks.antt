-- ===== src/Webhooks.antt =====
-- src/webhooks/webhook-log.entity.ts and webhooks.service.ts: a status change is posted to the
-- employer's address, with one retry, and logged. `post` is the answer to the n-th request that
-- the service sends, and `sign` the HMAC of a body; the wait before the retry is left out.
pub mod Retry
pub mod Tables
mod Tests
use job_application_api.Prelude.{
  ℕ, zero, suc, String, Bool, true, false, Option, none, some, List, [], ◌∷◌, ◌++◌, length, ◌==◌,
  if◌then◌else◌,
}
use job_application_api.Exec.{Exec, Result, ok, err, fault, pure}
use job_application_api.Repository.{Repository}
use job_application_api.Users
use job_application_api.Users.{User}
use job_application_api.Jobs
use job_application_api.Jobs.{Job}
use job_application_api.Applications
use job_application_api.Applications.{Application, ApplicationStatusChangedEvent}
use job_application_api.Pagination.{Paginated, paginate, default}

-- the relation is the id of its row, also in the rows that the list joins
pub record WebhookLog : Type 0 where
  pub id : String
  pub application : String
  pub event_type : String
  pub payload : ApplicationStatusChangedEvent
  pub status_code : Option ℕ
  pub delivered_at : ℕ

-- the table has no unique constraint but its generated key
abbrev pub clash : WebhookLog → WebhookLog → Bool
clash l k = false

-- numbers from 1: the route deals with all others
pub record QueryLogs : Type 0 where
  pub page : Option ℕ
  pub limit : Option ℕ

-- `axios.post` returns a response with a 2xx status; it throws an AxiosError with the status of a
-- response that has another one, or without a response; or any other error is thrown
pub data Reply : Type 0 where
  response : ℕ → Reply
  axios_error : Option ℕ → Reply
  other_error : Reply

-- a request, whose body is the payload with its event type
pub record Delivery : Type 0 where
  pub url : String
  pub body : ApplicationStatusChangedEvent
  pub signature : String

-- what is known of the try block: it is over, or it was left with an error and this status code
pub data TryBlock : Type 0 where
  over : TryBlock
  caught : Option ℕ → TryBlock

-- an error of `logDelivery` is caught too, and has no status code
abbrev pub logged : Result {0} Unit → TryBlock
logged (ok u) = over
logged (err f) = caught none

module _ (users : Repository User Users.clash) (jobs : Repository Job Jobs.clash)
    (apps : Repository Application Applications.clash) (logs : Repository WebhookLog clash)
    (post : ℕ → Delivery → Reply) (sign : ApplicationStatusChangedEvent → String) where
  pub record Store : Type 0 where
    pub users_table : users.State
    pub jobs_table : jobs.State
    pub apps_table : apps.State
    pub logs_table : logs.State
    pub sent : List Delivery

  log_inserted : Store → Option logs.State → Result {0} Unit × Store
  log_inserted s none = (err fault, s)
  log_inserted s (some t) = (ok tt, record s { logs_table = t })

  -- the row that `logDelivery` creates
  abbrev pub new_log : ApplicationStatusChangedEvent → Option ℕ → logs.State → WebhookLog
  new_log payload status_code s = record {
    id = logs.next_id s;
    application = payload.application_id;
    event_type = "application.status_changed";
    payload = payload;
    status_code = status_code;
    delivered_at = logs.now s;
  }

  save_log : ApplicationStatusChangedEvent → Option ℕ → Option Application → Exec Store Unit
  unfolding log_inserted
  save_log payload status_code none s = (ok tt, s)
  save_log payload status_code (some a) s =
      log_inserted s (logs.insert (new_log payload status_code s.logs_table) s.logs_table)

  pub log_delivery : ApplicationStatusChangedEvent → Option ℕ → Exec Store Unit
  unfolding save_log
  log_delivery payload status_code s =
      save_log payload status_code
        (apps.find_one (Applications.has_id payload.application_id) s.apps_table) s

  -- the try block after the request
  pub replied : ApplicationStatusChangedEvent → Reply → Store → TryBlock × Store
  unfolding log_delivery
  replied payload (response status) s =
      let r = log_delivery payload (some status) s in (logged r.0, r.1)
  replied payload (axios_error status) s = (caught status, s)
  replied payload other_error s = (caught none, s)

  pub try_post : String → ApplicationStatusChangedEvent → Store → TryBlock × Store
  unfolding replied
  try_post url payload s =
      let delivery : Delivery = record { url = url; body = payload; signature = sign payload } in
      replied payload (post (length s.sent) delivery) (record s { sent = s.sent ++ delivery ∷ [] })

  -- the catch block of the last attempt, and of one before it
  pub last_attempt : ApplicationStatusChangedEvent → TryBlock → Exec Store Unit
  unfolding log_delivery
  last_attempt payload over s = (ok tt, s)
  last_attempt payload (caught status) s = log_delivery payload status s

  pub retried : Exec Store Unit → TryBlock → Exec Store Unit
  retried again over s = (ok tt, s)
  retried again (caught status) s = again s

  -- `deliver` with attempt 2, and with attempt 1
  pub deliver_again : String → ApplicationStatusChangedEvent → Exec Store Unit
  unfolding try_post last_attempt
  deliver_again url payload s = let r = try_post url payload s in last_attempt payload r.0 r.1

  unfoldable pub deliver : String → ApplicationStatusChangedEvent → Exec Store Unit
  unfolding try_post retried deliver_again
  deliver url payload s =
      let r = try_post url payload s in retried (deliver_again url payload) r.0 r.1

  -- `employer?.webhookUrl`, where an empty address is falsy
  pub to_address : ApplicationStatusChangedEvent → Option String → Exec Store Unit
  unfolding deliver
  to_address payload none s = (ok tt, s)
  to_address payload (some url) s = if url == "" then (ok tt, s) else deliver url payload s

  pub address_of : Option User → Option String
  address_of none = none
  address_of (some employer) = employer.webhook_url

  unfoldable pub handle_status_changed : ApplicationStatusChangedEvent → Exec Store Unit
  unfolding to_address address_of
  handle_status_changed payload s =
      to_address payload
        (address_of (users.find_one (Users.has_id payload.employer_id) s.users_table)) s

  -- the joined job of the joined application was posted by this user
  abbrev pub concerns : String → jobs.State → apps.State → WebhookLog → Bool
  concerns user js table log = elim (apps.find_one (Applications.has_id log.application) table) [
    | none ↦ false
    | some a ↦ Applications.posted_by apps jobs user js a
  ]

  unfoldable pub find_logs_for_employer : String → QueryLogs → Store → Paginated WebhookLog
  find_logs_for_employer employer_id query s =
      paginate logs (λ l. l.delivered_at) (concerns employer_id s.jobs_table s.apps_table)
        (default 1 query.page) (default 10 query.limit) s.logs_table
