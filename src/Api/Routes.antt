-- ===== src/Api/Routes.antt =====
-- The routes: what each method of a controller does to the store of all tables.
use job_application_api.Prelude.{String, ◌&&◌, if◌then◌else◌, some, List, any, ◌==◌}
use job_application_api.Exec.{Exec, Result, ok, err, fault, gets, pure, ◌>>=◌}
use job_application_api.Users
use job_application_api.Users.{UserRole, Profile}
use job_application_api.Jobs
use job_application_api.Applications
use job_application_api.Jobs.{CreateJob, UpdateJob}
use job_application_api.Applications.{ApplicationStatus, ApplicationStatusChangedEvent}
use job_application_api.Auth
use job_application_api.Auth.{RegisterDto}
use job_application_api.Webhooks
use job_application_api.Webhooks.{WebhookLog, Delivery}
use job_application_api.Pagination.{Paginated}
use job_application_api.Http.{Handled, plain}
use job_application_api.Dtos.{
  LoginDto, QueryJobsDto, QueryApplicationsDto, query_jobs, query_applications, QueryLogsDto,
  query_logs, are_from_1,
}
use job_application_api.Api.{
  PublicRequest, register, login, refresh, find_jobs, find_job, GuardedRequest, logout, create_job,
  update_job, remove_job, find_applications, find_mine, apply, update_status, find_users,
  update_role, register_webhook, find_logs, Backend, Call, Body, of_profile, of_login, of_tokens,
  of_message, of_job, of_jobs, of_application, of_applications, of_users, of_webhook, of_logs,
  PageMeta, caller, paginated, access_token,
}

module _ (w : Backend) where
  pub record Store : Type 0 where
    pub users_table : w.users.State
    pub jobs_table : w.jobs.State
    pub apps_table : w.apps.State
    pub tokens_table : w.tokens.State
    pub logs_table : w.logs.State
    pub cache : w.redis.State
    pub sent : List Delivery
    -- emitted and not yet handled
    pub events : List ApplicationStatusChangedEvent

  abbrev pub AuthStore : Type 0
  AuthStore = Auth.Store w.users w.tokens w.redis w.crypto

  abbrev pub AppsStore : Type 0
  AppsStore = Applications.Store w.apps w.jobs

  abbrev pub HooksStore : Type 0
  HooksStore = Webhooks.Store w.users w.jobs w.apps w.logs w.post w.sign

  -- a call of a service, on its part of the store
  unfoldable pub on_users : {A : Type 0} → Exec w.users.State A → Exec Store A
  on_users m s = let r = m s.users_table in (r.0, record s { users_table = r.1 })

  unfoldable pub on_jobs : {A : Type 0} → Exec w.jobs.State A → Exec Store A
  on_jobs m s = let r = m s.jobs_table in (r.0, record s { jobs_table = r.1 })

  abbrev pub auth_part : Store → AuthStore
  auth_part s = record {
    users_table = s.users_table;
    tokens_table = s.tokens_table;
    cache = s.cache;
  }

  unfoldable pub on_auth : {A : Type 0} → Exec AuthStore A → Exec Store A
  on_auth m s =
      let r = m (auth_part s) in
      (
        r.0,
        record s {
          users_table = r.1.users_table;
          tokens_table = r.1.tokens_table;
          cache = r.1.cache;
        },
      )

  abbrev pub apps_part : Store → AppsStore
  apps_part s = record { apps_table = s.apps_table; jobs_table = s.jobs_table; events = s.events }

  unfoldable pub on_apps : {A : Type 0} → Exec AppsStore A → Exec Store A
  on_apps m s =
      let r = m (apps_part s) in
      (
        r.0,
        record s { apps_table = r.1.apps_table; jobs_table = r.1.jobs_table; events = r.1.events },
      )

  abbrev pub hooks_part : Store → HooksStore
  hooks_part s = record {
    users_table = s.users_table;
    jobs_table = s.jobs_table;
    apps_table = s.apps_table;
    logs_table = s.logs_table;
    sent = s.sent;
  }

  -- `ON DELETE CASCADE` of the migrations: the applications to a job go with it, and their logs
  unfoldable pub cascade : String → Store → Store
  cascade job_id s = record s {
    apps_table = w.apps.remove (λ a. a.job == job_id) s.apps_table;
    logs_table =
        w.logs.remove
          (λ l. any (λ a. a.job == job_id && a.id == l.application) (w.apps.rows s.apps_table))
          s.logs_table;
  }

  -- after the removal of a job
  unfoldable pub cascaded : String → Result String × Store → Result String × Store
  unfolding cascade
  cascaded job_id (ok m, s) = (ok m, cascade job_id s)
  cascaded job_id (err f, s) = (err f, s)

  unfoldable pub returns :
      {A : Type 0} → (A → Handled Body PageMeta) → Exec Store A → Exec Store (Handled Body PageMeta)
  returns f m = m >>= λ a. pure (f a)

  -- a service that begins with a query for the row with this id: PostgreSQL fails on a text that is
  -- no UUID
  unfoldable pub by_id : {A : Type 0} → String → Exec Store A → Exec Store A
  by_id id m s = if w.is_uuid id then m s else (err fault, s)

  -- the methods of the controllers
  abbrev pub register_route : Call → RegisterDto → Exec Store (Handled Body PageMeta)
  register_route c dto =
      returns (λ p. plain (of_profile p))
        (on_auth (Auth.register w.users w.tokens w.redis w.crypto dto c.env))

  abbrev pub login_route : Call → LoginDto → Exec Store (Handled Body PageMeta)
  login_route c dto =
      returns (λ r. plain (of_login r))
        (on_auth (Auth.login w.users w.tokens w.redis w.crypto dto.email dto.password c.env))

  abbrev pub refresh_route : Call → String → Exec Store (Handled Body PageMeta)
  refresh_route c token =
      returns (λ t. plain (of_tokens t))
        (on_auth (Auth.refresh w.users w.tokens w.redis w.crypto token c.env))

  abbrev pub find_jobs_route : Call → QueryJobsDto → Exec Store (Handled Body PageMeta)
  find_jobs_route c query = gets (λ s.
      (paginated of_jobs (Jobs.find_all w.jobs w.like w.date (query_jobs query) s.jobs_table)))

  abbrev pub find_job_route : Call → String → Exec Store (Handled Body PageMeta)
  find_job_route c id =
      returns (λ j. plain (of_job j)) (by_id id (on_jobs (Jobs.find_one w.jobs id)))

  abbrev pub logout_route : Call → Profile → Exec Store (Handled Body PageMeta)
  logout_route c p =
      returns (λ m. plain (of_message m))
        (on_auth
          (Auth.logout w.users w.tokens w.redis w.crypto p.id (access_token c.authorization) c.env))

  abbrev pub create_job_route : Call → CreateJob → Profile → Exec Store (Handled Body PageMeta)
  create_job_route c dto p =
      returns (λ j. plain (of_job j)) (on_jobs (Jobs.create w.jobs dto (caller p)))

  abbrev pub update_job_route :
      Call → String → UpdateJob → Profile → Exec Store (Handled Body PageMeta)
  update_job_route c id dto p =
      returns (λ j. plain (of_job j)) (by_id id (on_jobs (Jobs.update w.jobs id dto (caller p))))

  unfoldable pub remove_job_route : Call → String → Profile → Exec Store (Handled Body PageMeta)
  unfolding cascaded
  remove_job_route c id p =
      returns (λ m. plain (of_message m))
        (by_id id (λ s. cascaded id (on_jobs (Jobs.remove w.jobs id (caller p)) s)))

  abbrev pub find_applications_route :
      Call → QueryApplicationsDto → Profile → Exec Store (Handled Body PageMeta)
  find_applications_route c query p = gets (λ s.
      (paginated of_applications (
        Applications.find_all w.apps w.jobs (query_applications query) (some (caller p))
          (apps_part s))))

  abbrev pub find_mine_route :
      Call → QueryApplicationsDto → Profile → Exec Store (Handled Body PageMeta)
  find_mine_route c query p = gets (λ s.
      (paginated of_applications
        (Applications.find_mine w.apps w.jobs (caller p) (query_applications query) (apps_part s))))

  abbrev pub apply_route : Call → String → String → Profile → Exec Store (Handled Body PageMeta)
  apply_route c job_id cover_letter p =
      returns (λ a. plain (of_application a))
        (by_id job_id (on_apps (Applications.apply w.apps w.jobs job_id cover_letter (caller p))))

  abbrev pub update_status_route :
      Call → String → ApplicationStatus → Profile → Exec Store (Handled Body PageMeta)
  update_status_route c id status p =
      returns (λ a. plain (of_application a))
        (by_id id
          (on_apps (Applications.update_status w.apps w.jobs id status (caller p) c.timestamp)))

  abbrev pub find_users_route : Call → Profile → Exec Store (Handled Body PageMeta)
  find_users_route c p = gets (λ s. (plain (of_users (Users.find_all w.users s.users_table))))

  abbrev pub update_role_route :
      Call → String → UserRole → Profile → Exec Store (Handled Body PageMeta)
  update_role_route c id role p =
      returns (λ u. plain (of_profile u))
        (by_id id (on_users (Users.update_role w.users id role p.id)))

  abbrev pub register_webhook_route : Call → String → Profile → Exec Store (Handled Body PageMeta)
  register_webhook_route c url p =
      returns (λ u. plain (of_webhook u.webhook_url))
        (on_users (Users.update_webhook_url w.users p.id url))

  pub find_logs_page : QueryLogsDto → String → Store → Result (Paginated WebhookLog)
  find_logs_page query employer_id s =
      if are_from_1 query.page query.limit
      then ok (
          Webhooks.find_logs_for_employer w.users w.jobs w.apps w.logs w.post w.sign employer_id
            (query_logs query) (hooks_part s))
      else w.odd_page query.page query.limit (
          w.logs.ordered (λ l. l.delivered_at)
            (Webhooks.concerns w.users w.jobs w.apps w.logs w.post w.sign employer_id s.jobs_table
              s.apps_table)
            s.logs_table)

  abbrev pub find_logs_route : Call → QueryLogsDto → Profile → Exec Store (Handled Body PageMeta)
  find_logs_route c query p = returns (paginated of_logs) (λ s. (find_logs_page query p.id s, s))

  unfoldable pub handle_public : Call → PublicRequest → Exec Store (Handled Body PageMeta)
  handle_public c (register dto) = register_route c dto
  handle_public c (login dto) = login_route c dto
  handle_public c (refresh token) = refresh_route c token
  handle_public c (find_jobs query) = find_jobs_route c query
  handle_public c (find_job id) = find_job_route c id

  unfoldable pub handle_guarded :
      Call → GuardedRequest → Profile → Exec Store (Handled Body PageMeta)
  handle_guarded c logout p = logout_route c p
  handle_guarded c (create_job dto) p = create_job_route c dto p
  handle_guarded c (update_job id dto) p = update_job_route c id dto p
  handle_guarded c (remove_job id) p = remove_job_route c id p
  handle_guarded c (find_applications query) p = find_applications_route c query p
  handle_guarded c (find_mine query) p = find_mine_route c query p
  handle_guarded c (apply job_id cover_letter) p = apply_route c job_id cover_letter p
  handle_guarded c (update_status id status) p = update_status_route c id status p
  handle_guarded c find_users p = find_users_route c p
  handle_guarded c (update_role id role) p = update_role_route c id role p
  handle_guarded c (register_webhook url) p = register_webhook_route c url p
  handle_guarded c (find_logs query) p = find_logs_route c query p
