-- ===== src/Webhooks/Retry.antt =====
-- How often a status change is posted, what is logged of it, and who sees the log.
use job_application_api.Prelude.{
  ℕ, String, ◌≡◌, refl, ◌∙◌, ap, inl, inr, Bool, true, false, Option, none, some, List, [], ◌∷◌,
  ◌++◌, length, tally, ◌==◌, eq_iff, arith, if◌then◌else◌, Bool-cases, Option-cases,
}
use job_application_api.Exec.{Result, ok}
use job_application_api.Repository.{Repository}
use job_application_api.Repository.Rows.{In}
use job_application_api.Users
use job_application_api.Users.{User}
use job_application_api.Jobs
use job_application_api.Jobs.{Job}
use job_application_api.Applications
use job_application_api.Applications.{Application, ApplicationStatusChangedEvent}
use job_application_api.Pagination.{default}
use job_application_api.Pagination.Pages.{In-paginate}
use job_application_api.Webhooks.{
  WebhookLog, clash, QueryLogs, Reply, response, axios_error, other_error, Delivery, Store, new_log,
  log_delivery, deliver_again, deliver, handle_status_changed, concerns, find_logs_for_employer,
}

tally_none : (ls : List WebhookLog) → tally (λ l. false) ls ≡ 0
tally_none [] = refl
tally_none (l ∷ ls) = tally_none ls

module _ (users : Repository User Users.clash) (jobs : Repository Job Jobs.clash)
    (apps : Repository Application Applications.clash) (logs : Repository WebhookLog clash)
    (post : ℕ → Delivery → Reply) (sign : ApplicationStatusChangedEvent → String) where
  abbrev pub S : Type 0
  S = Store users jobs apps logs post sign

  abbrev pub delivery : String → ApplicationStatusChangedEvent → Delivery
  delivery url payload = record { url = url; body = payload; signature = sign payload }

  -- the call returned, and these requests were sent and a log with this status was stored
  abbrev pub Delivers :
      ApplicationStatusChangedEvent → List Delivery → Option ℕ → S → Result {0} Unit × S → Type 0
  Delivers payload requests status s r =
      (r.0 ≡ ok tt)
      × (r.1.sent ≡ s.sent ++ requests)
      × (logs.rows r.1.logs_table
          ≡ logs.rows s.logs_table
            ++ new_log users jobs apps logs post sign payload status s.logs_table ∷ [])

  log_delivery_lem :
      (payload : ApplicationStatusChangedEvent) (status : Option ℕ) (a : Application) (s : S)
      → apps.find_one (Applications.has_id payload.application_id) s.apps_table ≡ some a
      → (t : logs.State) × (log_delivery users jobs apps logs post sign payload status s
          ≡ (ok tt, record s { logs_table = t }))
        × (logs.rows t
            ≡ logs.rows s.logs_table
              ++ new_log users jobs apps logs post sign payload status s.logs_table ∷ [])
  unfolding log_delivery
  log_delivery_lem payload status a s there =
      let row = new_log users jobs apps logs post sign payload status s.logs_table in
      elim (Option-cases (logs.insert row s.logs_table)) [
        | inl e ↦
            absurd (logs.insert_clashes row s.logs_table e (tally_none (logs.rows s.logs_table)))
        | inr (t, e) ↦ (t, rw (there, e) refl, logs.rows-insert row s.logs_table t e)
      ]

  abbrev pub is_response : Reply → Bool
  is_response (response status) = true
  is_response (axios_error status) = false
  is_response other_error = false

  abbrev pub status_of : Reply → Option ℕ
  status_of (response status) = some status
  status_of (axios_error status) = status
  status_of other_error = none

  module _ (url : String) (payload : ApplicationStatusChangedEvent) (a : Application) where
    abbrev request : Delivery
    request = delivery url payload

    abbrev posted : S → S
    posted s = record s { sent = s.sent ++ request ∷ [] }

    abbrev reply : S → Reply
    reply s = post (length s.sent) request

    deliver_again_lem :
        (s : S)
        → apps.find_one (Applications.has_id payload.application_id) s.apps_table ≡ some a
        → (r : Reply) → reply s ≡ r
        → Delivers payload
            (request ∷ [])
            (status_of r)
            s
            (deliver_again users jobs apps logs post sign url payload s)
    unfolding deliver_again
    deliver_again_lem s there (response status) e =
        let (t, same, rows) = log_delivery_lem payload (some status) a (posted s) there in
        rw (e, same) (refl, refl, rows)
    deliver_again_lem s there (axios_error status) e =
        let (t, same, rows) = log_delivery_lem payload status a (posted s) there in
        rw (e, same) (refl, refl, rows)
    deliver_again_lem s there other_error e =
        let (t, same, rows) = log_delivery_lem payload none a (posted s) there in
        rw (e, same) (refl, refl, rows)

    -- one request where it is answered, and two where the first is not
    abbrev pub requests_of : S → List Delivery
    requests_of s = if is_response (reply s) then request ∷ [] else request ∷ request ∷ []

    pub In-requests_of : (s : S) → In request (requests_of s)
    In-requests_of s = elim (Bool-cases (is_response (reply s))) [
      | inl e ↦ rw e (inl refl)
      | inr e ↦ rw e (inl refl)
    ]

    -- the status of the last answer, if it has one
    abbrev pub last_status : S → Option ℕ
    last_status s =
        if is_response (reply s) then status_of (reply s) else status_of (reply (posted s))

    append_two :
        (ds : List Delivery) → (ds ++ request ∷ []) ++ request ∷ [] ≡ ds ++ request ∷ request ∷ []
    append_two [] = refl
    append_two (d ∷ ds) = ap (◌∷◌ d) (append_two ds)

    second_attempt :
        (s : S)
        → apps.find_one (Applications.has_id payload.application_id) s.apps_table ≡ some a
        → Delivers payload
            (request ∷ request ∷ [])
            (status_of (reply (posted s)))
            s
            (deliver_again users jobs apps logs post sign url payload (posted s))
    second_attempt s there =
        let (done, sent, rows) = deliver_again_lem (posted s) there (reply (posted s)) refl in
        (done, sent ∙ append_two s.sent, rows)

    first_attempt :
        (s : S)
        → apps.find_one (Applications.has_id payload.application_id) s.apps_table ≡ some a
        → (r : Reply) → reply s ≡ r
        → Delivers payload
            (requests_of s)
            (last_status s)
            s
            (deliver users jobs apps logs post sign url payload s)
    unfolding deliver
    first_attempt s there (response status) e =
        let (t, same, rows) = log_delivery_lem payload (some status) a (posted s) there in
        rw (e, same) (refl, refl, rows)
    first_attempt s there (axios_error status) e = rw e (second_attempt s there)
    first_attempt s there other_error e = rw e (second_attempt s there)

    -- If the employer is there with an address and the application is there, the handler returns;
    -- it posts the change to the address once, and once more exactly when axios threw, which it
    -- does without a response and for a response whose status is not 2xx, and stores one log, with
    -- the status of the last response or none.
    pub handle_status_changed-Delivers :
        (employer : User) (s : S)
        → users.find_one (Users.has_id payload.employer_id) s.users_table ≡ some employer
        → employer.webhook_url ≡ some url
        → (url == "") ≡ false
        → apps.find_one (Applications.has_id payload.application_id) s.apps_table ≡ some a
        → Delivers payload
            (requests_of s)
            (last_status s)
            s
            (handle_status_changed users jobs apps logs post sign payload s)
    unfolding handle_status_changed
    handle_status_changed-Delivers employer s known has_url nonempty there =
        rw (known, has_url, nonempty) (first_attempt s there (reply s) refl)

  -- An employer's list of logs shows only those of applications to jobs that this employer posted.
  pub find_logs_for_employer-own :
      (employer_id : String) (query : QueryLogs) (s : S) (log : WebhookLog)
      → In log (find_logs_for_employer users jobs apps logs post sign employer_id query s).rows
      → (a : Application) × (job : Job) × In a (apps.rows s.apps_table)
        × (a.id ≡ log.application)
        × In job (jobs.rows s.jobs_table)
        × (job.id ≡ a.job)
        × (job.posted_by ≡ employer_id)
  unfolding find_logs_for_employer
  find_logs_for_employer-own employer_id query s log m =
      let passes =
        In-paginate logs (λ l. l.delivered_at)
          (concerns users jobs apps logs post sign employer_id s.jobs_table s.apps_table)
          s.logs_table (default 1 query.page) (default 10 query.limit) log m in
      elim (Option-cases (apps.find_one (Applications.has_id log.application) s.apps_table)) [
        | inl lost ↦ cc
        | inr (a, found) ↦ elim (Option-cases (jobs.find_one (Jobs.has_id a.job) s.jobs_table)) [
          | inl lost ↦ cc
          | inr (job, joined) ↦ (
            a,
            job,
            apps.In-find_one _ _ a found,
            (eq_iff _ _).0 (apps.find_one_passes _ _ a found),
            jobs.In-find_one _ _ job joined,
            (eq_iff _ _).0 (jobs.find_one_passes _ _ job joined),
            (eq_iff _ _).0 (ground arith),
          )
        ]
      ]
