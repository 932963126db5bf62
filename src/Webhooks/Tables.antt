-- ===== src/Webhooks/Tables.antt =====
-- What the delivery of an event keeps of the tables.
use job_application_api.Prelude.{
  ℕ, String, Bool, true, false, not, ◌&&◌, any, ◌≡◌, refl, ◌∙◌, inl, inr, Option, none, some, List,
  [], ◌∷◌, ◌++◌, select, tally, ◌==◌, Bool-cases, Option-cases,
}
use mathlib.Core.Path.{subst}
use job_application_api.Exec.{Exec}
use job_application_api.Repository.{Repository}
use job_application_api.Repository.Rows.{In, In-append_left, tally-In}
use job_application_api.Repository.Refs.{
  HasKeys, Keeps, HasKeys-append, HasKeys-select, In-select, In-select_cases, any-In, tally-some,
  Refers, Refers-append,
}
use job_application_api.Users
use job_application_api.Users.{User}
use job_application_api.Jobs
use job_application_api.Jobs.{Job}
use job_application_api.Applications
use job_application_api.Applications.{Application, ApplicationStatusChangedEvent}
use job_application_api.Webhooks.{
  WebhookLog, Delivery, Reply, response, axios_error, other_error, clash, Store, new_log,
  log_delivery, try_post, over, caught, TryBlock, replied, last_attempt, retried, to_address,
  address_of, deliver_again, deliver, handle_status_changed,
}

abbrev pub has_id : String → WebhookLog → Bool
has_id i l = l.id == i

-- log keys are unique, and the applications of logs are there
pub record LogsSound (apps : List Application) (ls : List WebhookLog) : Type 0 where
  pub log_keys : HasKeys (λ l. l.id) ls
  pub subjects : Refers (λ l. l.application) (λ a. a.id) ls apps

pub LogsSound-Keeps :
    (apps bs : List Application) (ls : List WebhookLog)
    → LogsSound apps ls
    → Keeps (λ a. a.id) apps bs
    → LogsSound bs ls
LogsSound-Keeps apps bs ls h kept = record {
  log_keys = h.log_keys;
  subjects = λ l m. kept l.application (h.subjects l m);
}

-- the applications to a job removed, and their logs
pub LogsSound-cascade :
    (job_id : String) (apps : List Application) (ls : List WebhookLog)
    → LogsSound apps ls
    → LogsSound
        (select (λ a. not (a.job == job_id)) apps)
        (select (λ l. not (any (λ a. a.job == job_id && a.id == l.application) apps)) ls)
LogsSound-cascade job_id apps ls h = record {
  log_keys = HasKeys-select (λ l. l.id) _ ls h.log_keys;
  subjects = λ l m.
      let gone : WebhookLog → Bool =
        λ k. any (λ a. a.job == job_id && a.id == k.application) apps in
      let (there, kept) = In-select_cases (λ k. not (gone k)) ls l m in
      let (a, stored, same) = tally-some (λ a. a.id == l.application) apps (h.subjects l there) in
      let other : (a.job == job_id) ≡ false = elim (Bool-cases (a.job == job_id)) [
        | inl e ↦
            let found : gone l ≡ true =
              any-In (λ x. x.job == job_id && x.id == l.application) apps a stored
                (rw (e, same) refl) in
            cc
        | inr e ↦ e
      ] in
      tally-In (λ x. x.id == l.application) a _
        (In-select (λ x. not (x.job == job_id)) apps a stored (rw other refl)) same;
}

module _ (users : Repository User Users.clash) (jobs : Repository Job Jobs.clash)
    (apps : Repository Application Applications.clash) (logs : Repository WebhookLog clash)
    (post : ℕ → Delivery → Reply) (sign : ApplicationStatusChangedEvent → String) where
  abbrev pub S : Type 0
  S = Store users jobs apps logs post sign

  abbrev pub IsSound : S → Type 0
  IsSound s = LogsSound (apps.rows s.apps_table) (logs.rows s.logs_table)

  -- the other tables are those of `s`, the logs are in order, and what was sent stays
  pub record Follows (s t : S) : Type 0 where
    pub same_users : t.users_table ≡ s.users_table
    pub same_jobs : t.jobs_table ≡ s.jobs_table
    pub same_apps : t.apps_table ≡ s.apps_table
    pub logs_sound : LogsSound (apps.rows s.apps_table) (logs.rows t.logs_table)
    pub kept_sent : (d : Delivery) → In d s.sent → In d t.sent

  stays : (s : S) → IsSound s → Follows s s
  stays s h = record {
    same_users = refl;
    same_jobs = refl;
    same_apps = refl;
    logs_sound = h;
    kept_sent = λ d m. m;
  }

  module _ (next_log_fresh : (s : logs.State) → tally (has_id (logs.next_id s)) (logs.rows s) ≡ 0)
      (payload : ApplicationStatusChangedEvent) where
    log_delivery-Follows :
        (status : Option ℕ) (s : S)
        → IsSound s
        → Follows s (log_delivery users jobs apps logs post sign payload status s).1
    unfolding log_delivery
    log_delivery-Follows status s h =
        elim (Option-cases
          (apps.find_one (Applications.has_id payload.application_id) s.apps_table)) [
            | inl lost ↦ rw lost (stays s h)
            | inr (a, there) ↦
                let row = new_log users jobs apps logs post sign payload status s.logs_table in
                elim (Option-cases (logs.insert row s.logs_table)) [
                  | inl e ↦ rw (there, e) (stays s h)
                  | inr (t, e) ↦
                      rw (there, e)
                        (record {
                          same_users = refl;
                          same_jobs = refl;
                          same_apps = refl;
                          logs_sound = rw (logs.rows-insert row s.logs_table t e) (record {
                            log_keys =
                                HasKeys-append (λ l. l.id) row (logs.rows s.logs_table) h.log_keys
                                  (next_log_fresh s.logs_table);
                            subjects =
                                Refers-append (λ l. l.application) (λ x. x.id) row
                                  (logs.rows s.logs_table) (apps.rows s.apps_table) h.subjects
                                  (tally-In _ a _ (apps.In-find_one _ _ a there)
                                    (apps.find_one_passes _ _ a there));
                          });
                          kept_sent = λ d m. m;
                        })
                ]
          ]

    -- a request sent is not in the tables
    Follows-sent :
        (s t : S) (d : Delivery) → Follows (record s { sent = s.sent ++ d ∷ [] }) t → Follows s t
    Follows-sent s t d f = record {
      kept_sent = λ e m. f.kept_sent e (In-append_left e s.sent (d ∷ []) m);
      same_users = f.same_users;
      same_jobs = f.same_jobs;
      same_apps = f.same_apps;
      logs_sound = f.logs_sound;
    }

    replied-Follows :
        (r : Reply) (s : S)
        → IsSound s
        → Follows s (replied users jobs apps logs post sign payload r s).1
    unfolding replied
    replied-Follows (response status) s h = log_delivery-Follows (some status) s h
    replied-Follows (axios_error status) s h = stays s h
    replied-Follows other_error s h = stays s h

    try_post-Follows :
        (url : String) (s : S)
        → IsSound s
        → Follows s (try_post users jobs apps logs post sign url payload s).1
    unfolding try_post
    try_post-Follows url s h =
        Follows-sent s _ _ (replied-Follows _ (record s { sent = s.sent ++ _ ∷ [] }) h)

    last_attempt-Follows :
        (b : TryBlock) (s : S)
        → IsSound s
        → Follows s (last_attempt users jobs apps logs post sign payload b s).1
    unfolding last_attempt
    last_attempt-Follows over s h = stays s h
    last_attempt-Follows (caught status) s h = log_delivery-Follows status s h

    -- a step after a step
    then :
        (s t : S) (m : Exec S Unit)
        → Follows s t
        → (IsSound t → Follows t (m t).1)
        → Follows s (m t).1
    then s t m f next =
        let g = next (rw f.same_apps f.logs_sound) in
        record {
          same_users = g.same_users ∙ f.same_users;
          same_jobs = g.same_jobs ∙ f.same_jobs;
          same_apps = g.same_apps ∙ f.same_apps;
          kept_sent = λ d k. g.kept_sent d (f.kept_sent d k);
          logs_sound =
              subst (λ table. LogsSound (apps.rows table) (logs.rows (m t).1.logs_table))
                f.same_apps g.logs_sound;
        }

    deliver_again-Follows :
        (url : String) (s : S)
        → IsSound s
        → Follows s (deliver_again users jobs apps logs post sign url payload s).1
    unfolding deliver_again
    deliver_again-Follows url s h =
        let r = try_post users jobs apps logs post sign url payload s in
        then s r.1 (last_attempt users jobs apps logs post sign payload r.0)
          (try_post-Follows url s h) (last_attempt-Follows r.0 r.1)

    retried-Follows :
        (url : String) (b : TryBlock) (s : S)
        → IsSound s
        → Follows s
            (retried users jobs apps logs post sign
              (deliver_again users jobs apps logs post sign url payload)
              b
              s).1
    unfolding retried
    retried-Follows url over s h = stays s h
    retried-Follows url (caught status) s h = deliver_again-Follows url s h

    deliver-Follows :
        (url : String) (s : S)
        → IsSound s
        → Follows s (deliver users jobs apps logs post sign url payload s).1
    unfolding deliver
    deliver-Follows url s h =
        let r = try_post users jobs apps logs post sign url payload s in
        then s r.1
          (retried users jobs apps logs post sign
            (deliver_again users jobs apps logs post sign url payload) r.0)
          (try_post-Follows url s h) (retried-Follows url r.0 r.1)

    to_address-Follows :
        (address : Option String) (s : S)
        → IsSound s
        → Follows s (to_address users jobs apps logs post sign payload address s).1
    unfolding to_address
    to_address-Follows none s h = stays s h
    to_address-Follows (some url) s h = elim (Bool-cases (url == "")) [
      | inl e ↦ rw e (stays s h)
      | inr e ↦ rw e (deliver-Follows url s h)
    ]

    pub handle_status_changed-Follows :
        (s : S)
        → IsSound s
        → Follows s (handle_status_changed users jobs apps logs post sign payload s).1
    unfolding handle_status_changed
    handle_status_changed-Follows s h =
        to_address-Follows
          (address_of users jobs apps logs post sign
            (users.find_one (Users.has_id payload.employer_id) s.users_table))
          s h
