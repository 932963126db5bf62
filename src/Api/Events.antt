-- ===== src/Api/Events.antt =====
-- Every event that a review emits is handled, and its employer is told of it.
use job_application_api.Prelude.{
  ℕ, zero, suc, String, ◌≡◌, refl, false, some, List, [], ◌∷◌, ◌++◌, length, drop, ◌==◌,
}
use job_application_api.Repository.Rows.{In, In-append_right}
use job_application_api.Users
use job_application_api.Users.{User, Profile, profile}
use job_application_api.Applications
use job_application_api.Applications.{Application, ApplicationStatus, ApplicationStatusChangedEvent}
use job_application_api.Webhooks.{Delivery}
use job_application_api.Webhooks.Retry.{delivery, In-requests_of, handle_status_changed-Delivers}
use job_application_api.Webhooks.Tables.{handle_status_changed-Follows}
use job_application_api.Api.{Backend, Step, delivers}
use job_application_api.Api.Routes.{Store, hooks_part}
use job_application_api.Api.Serve.{hooks_done, deliver_event, deliver_events, run}
use job_application_api.Api.Tables.{HasFreshKeys, IsSound}
use job_application_api.Api.Sound.{deliver_event-IsSound}

-- as many turns of the listener
abbrev pub turns : ℕ → List Step
turns zero = []
turns (suc n) = delivers ∷ turns n

module _ (w : Backend) where
  abbrev pub waiting : Store w → ℕ
  waiting s = length s.events

  events-deliver_event :
      (es : List ApplicationStatusChangedEvent) (s : Store w)
      → s.events ≡ es
      → (deliver_event w s).events ≡ drop 1 es
  unfolding deliver_event deliver_events hooks_done
  events-deliver_event [] s h = rw h refl
  events-deliver_event (e ∷ es) s h = rw h refl

  drains :
      (es : List ApplicationStatusChangedEvent) (s : Store w)
      → s.events ≡ es
      → (run w (turns (length es)) s).events ≡ []
  unfolding run
  drains [] s h = h
  drains (e ∷ es) s h = drains es (deliver_event w s) (events-deliver_event (e ∷ es) s h)

  -- As many turns of the listener as events wait leave none.
  pub run-waiting : (s : Store w) → (run w (turns (waiting s)) s).events ≡ []
  run-waiting s = drains s.events s refl

  module _ (fresh : HasFreshKeys w) (e : ApplicationStatusChangedEvent) (employer : User)
      (url : String) (a : Application) (has_url : employer.webhook_url ≡ some url)
      (nonempty : (url == "") ≡ false) where
    -- the request that tells the employer
    abbrev pub notice : Delivery
    notice = delivery w.users w.jobs w.apps w.logs w.post w.sign url e

    -- the employer and the application are still there
    abbrev pub IsCurrent : Store w → Type 0
    IsCurrent s =
        (w.users.find_one (Users.has_id e.employer_id) s.users_table ≡ some employer)
        × (w.apps.find_one (Applications.has_id e.application_id) s.apps_table ≡ some a)

    told :
        (es : List ApplicationStatusChangedEvent) (s : Store w)
        → s.events ≡ e ∷ es
        → IsCurrent s
        → In notice (deliver_event w s).sent
    unfolding deliver_event deliver_events hooks_done
    told es s h (known, there) =
        let (_, sent, _) =
          handle_status_changed-Delivers w.users w.jobs w.apps w.logs w.post w.sign url e a employer
            (hooks_part w s) known has_url nonempty there in
        rw h (
          rw sent (
            In-append_right notice s.sent _
              (In-requests_of w.users w.jobs w.apps w.logs w.post w.sign url e a (hooks_part w s))))

    -- a turn keeps what was sent, the accounts and the applications
    kept :
        (es : List ApplicationStatusChangedEvent) (s : Store w)
        → s.events ≡ es
        → IsSound w s
        → ((d : Delivery) → In d s.sent → In d (deliver_event w s).sent)
          × ((deliver_event w s).users_table ≡ s.users_table)
          × ((deliver_event w s).apps_table ≡ s.apps_table)
    unfolding deliver_event deliver_events hooks_done
    kept [] s h sound = rw h (λ d m. m, refl, refl)
    kept (x ∷ es) s h sound =
        let f =
          handle_status_changed-Follows w.users w.jobs w.apps w.logs w.post w.sign fresh.log x
            (hooks_part w s) sound.logs in
        rw h (f.kept_sent, f.same_users, f.same_apps)

    stays_told :
        (n : ℕ) (s : Store w) → IsSound w s → In notice s.sent → In notice (run w (turns n) s).sent
    unfolding run
    stays_told zero s h m = m
    stays_told (suc n) s h m =
        stays_told n (deliver_event w s) (deliver_event-IsSound w fresh s h)
          ((kept s.events s refl h).0 notice m)

    pub reaches :
        (es later : List ApplicationStatusChangedEvent) (s : Store w)
        → s.events ≡ es ++ e ∷ later
        → IsSound w s
        → IsCurrent s
        → In notice (run w (turns (length (es ++ e ∷ later))) s).sent
    unfolding run
    reaches [] later s h sound current =
        stays_told (length later) (deliver_event w s) (deliver_event-IsSound w fresh s sound)
          (told later s h current)
    reaches (x ∷ es) later s h sound (known, there) =
        let (_, same_users, same_apps) = kept (x ∷ es ++ e ∷ later) s h sound in
        reaches es later (deliver_event w s) (events-deliver_event (x ∷ es ++ e ∷ later) s h)
          (deliver_event-IsSound w fresh s sound) (rw same_users known, rw same_apps there)
