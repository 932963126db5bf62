-- ===== src/Api/Tests.antt =====
-- Requests to a small server, and the theorems at concrete inputs. The stand-ins: an access token
-- is the id of its user, and its identifier too.
use job_application_api.Prelude.{
  ◌≤◌, String, ◌≡◌, ap, ◌∙◌, refl, inl, inr, true, none, some, List, [], ◌∷◌, ◌==◌, arith, length,
}
use job_application_api.Repository.Rows.{In}
use job_application_api.Repository.Keys.{fresh_key, fresh_key_lem}
use job_application_api.Repository.Memory.{memory}
use job_application_api.Repository.Refs.{HasKeys, HasKeys-append}
use job_application_api.Redis.Memory.{memory as redis}
use job_application_api.Users
use job_application_api.Users.{super_admin, employer, applicant, User, UserRole}
use job_application_api.Jobs
use job_application_api.Jobs.{Job, open_job}
use job_application_api.Applications
use job_application_api.Applications.{Application, pending, hired}
use job_application_api.Auth
use job_application_api.Pagination.{paginate}
use job_application_api.Http.{can_activate, catch, intercept}
use job_application_api.Tokens
use job_application_api.Tokens.{RefreshToken, Crypto, Surroundings}
use job_application_api.Webhooks
use job_application_api.Webhooks.{WebhookLog, response}
use job_application_api.Api.{
  Request, public, guarded, logout, required_roles, find_jobs, of_jobs, update_status, update_role,
  Backend, Call, calls, delivers,
}
use job_application_api.Api.Routes.{
  Store, handle_public, handle_guarded, returns, by_id, on_auth, on_users, on_apps,
}
use job_application_api.Api.Serve.{serve, run, jwt_guard, is_valid}
use job_application_api.Api.Access.{Gate, serve_gate}
use job_application_api.Api.Sound.{run-IsSound}
use job_application_api.Api.Atomic.{Same, serve_error}
use job_application_api.Api.Pages.{listed, serve-listed}
use job_application_api.Api.Events.{turns}
use job_application_api.Api.Reviews.{review_told}
use job_application_api.Api.Tables.{HasFreshKeys, IsSound}
use job_application_api.Exec.{ok, err, fault}
use job_application_api.Seed.{seed}
use job_application_api.Seed.Sound.{seed-IsSound}

abbrev crypto : Crypto
crypto = record {
  hash = λ salt text. text;
  compare = λ text h. text == h;
  sign_access = λ user email role jti now. user;
  sign_refresh = λ user now. user;
  verify_refresh = λ token now. some token;
  decode = λ token. some (record { jti = some token; exp = 1000 });
  refresh_expires_in = "7d";
}

abbrev w : Backend
w = record {
  users = memory Users.clash (fresh_key (λ u. u.id)) (λ us. 0);
  jobs = memory Jobs.clash (fresh_key (λ j. j.id)) (λ js. 0);
  apps = memory Applications.clash (fresh_key (λ a. a.id)) (λ xs. 0);
  tokens = memory Tokens.clash (fresh_key (λ t. t.id)) (λ ts. 0);
  logs = memory Webhooks.clash (fresh_key (λ l. l.id)) (λ ls. 0);
  redis = redis;
  crypto = crypto;
  bearer = λ header. some header;
  verify_access = λ token now. some (record { sub = token; jti = token });
  checks = record {
    is_email = λ t. true;
    is_url = λ t. true;
    size = λ t. 8;
    parse_url = λ t. none;
    is_ip = λ t. 0;
  };
  violations = λ r. "bad" ∷ [];
  like = λ text pattern. true;
  is_uuid = λ t. true;
  odd_page = λ page limit rows. err fault;
  date = λ t. 0;
  post = λ n d. response 200;
  sign = λ e. "signature";
}

w-HasFreshKeys : HasFreshKeys w
w-HasFreshKeys = record {
  user = fresh_key_lem (λ u. u.id);
  job = fresh_key_lem (λ j. j.id);
  app = fresh_key_lem (λ a. a.id);
  token = fresh_key_lem (λ t. t.id);
  log = fresh_key_lem (λ l. l.id);
}

abbrev person : String → UserRole → User
person id role = record {
  id = id;
  email = id;
  password_hash = "secret";
  role = role;
  full_name = id;
  webhook_url = some "https://x.org/hook";
  created_at = 1;
}

abbrev people : List User
people = person "ada" super_admin ∷ person "eve" employer ∷ person "bob" applicant ∷ []

abbrev post : Job
post = record {
  id = "j";
  posted_by = "eve";
  title = "Cook";
  description = "Soup";
  location = "Oslo";
  status = open_job;
  created_at = 1;
}

abbrev letter : Application
letter = record {
  id = "a";
  job = "j";
  applicant = "bob";
  cover_letter = "Hi";
  status = pending;
  reviewed_by = none;
  created_at = 1;
}

abbrev start : Store w
start = record {
  users_table = people;
  jobs_table = post ∷ [];
  apps_table = letter ∷ [];
  tokens_table = [];
  logs_table = [];
  cache = [];
  sent = [];
  events = [];
}

no_keys : {A : Type 0} (key : A → String) → HasKeys key []
no_keys key i = omega arith

people_keys : HasKeys (λ (u : User). u.id) people
people_keys =
    HasKeys-append (λ (u : User). u.id) (person "bob" applicant)
      (person "ada" super_admin ∷ person "eve" employer ∷ [])
      (HasKeys-append (λ (u : User). u.id) (person "eve" employer) (person "ada" super_admin ∷ [])
        (HasKeys-append (λ (u : User). u.id) (person "ada" super_admin) []
          (no_keys (λ (u : User). u.id)) refl)
        refl)
      refl

start-IsSound : IsSound w start
start-IsSound = record {
  users = record { user_keys = people_keys; emails = people_keys; some_admin = omega arith };
  jobs = record {
    job_keys = HasKeys-append (λ (j : Job). j.id) post [] (no_keys (λ (j : Job). j.id)) refl;
    posters = λ j m. elim m [ inl e ↦ rw (← e) (omega arith) | inr n ↦ absurd n ];
  };
  apps = record {
    sound = record {
      unique_ids =
          HasKeys-append (λ (a : Application). a.id) letter [] (no_keys (λ (a : Application). a.id))
            refl;
      has_jobs = λ a m. elim m [ inl e ↦ rw (← e) (omega arith) | inr n ↦ absurd n ];
      one_each = λ job user. ground arith;
    };
    applicants = λ a m. elim m [ inl e ↦ rw (← e) (omega arith) | inr n ↦ absurd n ];
    reviewers = λ a i m f. elim m [
      | inl e ↦ let set : none ≡ some i = ap (λ (x : Application). x.reviewed_by) e ∙ f in cc
      | inr n ↦ absurd n
    ];
  };
  tokens = record { token_keys = no_keys (λ (t : RefreshToken). t.id); owners = λ t m. absurd m };
  logs = record { log_keys = no_keys (λ (l : WebhookLog). l.id); subjects = λ l m. absurd m };
}

-- a request with the access token of a user
abbrev from : String → Request → Call
from user r = record {
  authorization = some user;
  request = r;
  env = record { now = 10; uuid = "new"; salt = "salt" };
  timestamp = "now";
}

-- eve hires bob
abbrev hire : Call
hire = from "eve" (guarded (update_status "a" hired))

serve_gate_example : Gate w (from "bob" (guarded logout)) start (update_role "eve" applicant)
serve_gate_example = serve_gate w (from "bob" (guarded logout)) start (update_role "eve" applicant)

run-IsSound_example : IsSound w (
    run w
      (calls hire ∷ delivers ∷ calls (from "ada" (guarded (update_role "eve" applicant))) ∷ [])
      start)
run-IsSound_example =
    run-IsSound w w-HasFreshKeys
      (calls hire ∷ delivers ∷ calls (from "ada" (guarded (update_role "eve" applicant))) ∷ [])
      start start-IsSound

-- the only administrator lowers herself
abbrev resign : Call
resign = from "ada" (guarded (update_role "ada" applicant))

serve_error_example : Same w start (serve w resign start).1
unfolding serve jwt_guard on_auth Auth.authenticate Users.find_by_id can_activate required_roles
    is_valid handle_guarded returns by_id on_users Users.update_role catch
serve_error_example =
    serve_error w w-HasFreshKeys resign start
      (record {
        code = "CANNOT_CHANGE_OWN_ROLE";
        message = some "You cannot change your own role.";
        status_code = 403;
      })
      start-IsSound refl

abbrev browse : Call
browse = from "" (
    public (
      find_jobs (record {
        page = none;
        limit = none;
        title = none;
        location = none;
        status = none;
        posted_after = none;
      })))

serve-listed_example : listed (of_jobs (post ∷ [])) ≤ 50
unfolding serve handle_public is_valid intercept Jobs.find_all paginate Jobs.matches
serve-listed_example = serve-listed w browse start (of_jobs (post ∷ [])) (λ h. h) refl

review_told_example :
    In
      (record {
        url = "https://x.org/hook";
        body = record {
          application_id = "a";
          job_id = "j";
          applicant_id = "bob";
          employer_id = "eve";
          status = hired;
          timestamp = "now";
        };
        signature = "signature";
      })
      (run w (turns 1) (serve w hire start).1).sent
unfolding serve jwt_guard on_auth Auth.authenticate Users.find_by_id can_activate required_roles
    is_valid handle_guarded returns by_id on_apps Applications.update_status intercept
review_told_example =
    review_told w w-HasFreshKeys hire "a" hired start
      (record letter { status = hired; reviewed_by = some "eve" }) post (person "eve" employer)
      "https://x.org/hook" start-IsSound refl (inl refl) refl refl refl refl

abbrev eve : String
eve = "eve"

-- the store after eve signed out, ada made bob an employer and eve tried to sign out again
abbrev later : Store w
later =
    run w
      (calls (from "ada" (guarded (update_role "bob" employer)))
        ∷ delivers
        ∷ calls (from "eve" (guarded logout))
        ∷ [])
      (serve w (from "eve" (guarded logout)) start).1

seed-IsSound_example :
    (a : Application) × (t : Store w) × (seed w "hash" start ≡ (ok a, t))
    × IsSound w t
    × (length (w.users.rows t.users_table) ≡ 4)
    × (length (w.jobs.rows t.jobs_table) ≡ 3)
    × (w.apps.rows t.apps_table ≡ a ∷ [])
seed-IsSound_example = seed-IsSound w w-HasFreshKeys "hash" start
