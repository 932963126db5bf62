-- ===== src/Api/Reviews.antt =====
-- An employer is told of the reviews of applications to its jobs.
use job_application_api.Prelude.{
  ◌≤◌, String, ◌≡◌, refl, ap, sym, ◌∙◌, inl, inr, false, none, some, [], ◌∷◌, ◌++◌, tally, ◌==◌,
  eq_refl, arith, Bool-cases, Option-cases,
}
use mathlib.Core.Path.{subst}
use job_application_api.Exec.{Result, ok, Result-cases}
use job_application_api.Repository.Rows.{In, rewrite, tally-In, In-rewrite}
use job_application_api.Repository.Refs.{same_row}
use job_application_api.Users
use job_application_api.Users.{User, Profile, profile}
use job_application_api.Jobs.{Job, Caller}
use job_application_api.Applications
use job_application_api.Applications.{Application, ApplicationStatus, ApplicationStatusChangedEvent}
use job_application_api.Applications.Status.{event_of, reviewed_as, update_status_success}
use job_application_api.Webhooks.Retry.{delivery}
use job_application_api.Http.{intercept}
use job_application_api.Api.{Backend, caller, Call, guarded, update_status, of_application}
use job_application_api.Api.Routes.{
  Store, AppsStore, apps_part, on_apps, by_id, returns, handle_guarded,
}
use job_application_api.Api.Serve.{Answered, answered, answer, serve, run}
use job_application_api.Api.Access.{serve_gate, stranger, outsider, malformed, handled}
use job_application_api.Api.Tables.{HasFreshKeys, IsSound}
use job_application_api.Api.Events.{turns, waiting, reaches}
use job_application_api.Api.Sound.{served-IsSound}

module _ (w : Backend) where
  module _ (fresh : HasFreshKeys w) (c : Call) (id : String) (status : ApplicationStatus)
      (s : Store w) where
    abbrev pub review : Call
    review = record c { request = guarded (update_status id status) }

    -- the event of a review of this application
    abbrev pub event : Application → Job → ApplicationStatusChangedEvent
    event b job = event_of w.apps w.jobs b job status c.timestamp

    reviewed : Caller → Result Application × AppsStore w
    reviewed reviewer =
        Applications.update_status w.apps w.jobs id status reviewer c.timestamp (apps_part w s)

    -- the review was done, and this is the store that it left
    abbrev IsDone : Caller → Application → Store w → Type 0
    IsDone reviewer b t =
        ((reviewed reviewer).0 ≡ ok b)
        × (t.users_table ≡ s.users_table)
        × (t.apps_table ≡ (reviewed reviewer).1.apps_table)
        × (t.events ≡ (reviewed reviewer).1.events)

    abbrev answer_of : Profile → Answered w × Store w
    answer_of p = answered w (handle_guarded w review (update_status id status) p s)

    handled-IsDone :
        (p : Profile) (b : Application)
        → (answer w (guarded (update_status id status)) (answer_of p).0).answer.payload
          ≡ some (of_application b)
        → IsDone (caller p) b (answer_of p).1
    unfolding handle_guarded by_id on_apps returns answered answer intercept reviewed
    handled-IsDone p b e = elim (Bool-cases (w.is_uuid id)) [
      | inr odd ↦ let refused : none ≡ some (of_application b) = rw odd at e in cc
      | inl uuid ↦ elim (Result-cases (reviewed (caller p)).0) [
        | inl (f, failed) ↦
            let refused : none ≡ some (of_application b) = rw (uuid, failed) at e in cc
        | inr (a, done) ↦
            let same : some (of_application a) ≡ some (of_application b) = rw (uuid, done) at e in
            let it : a ≡ b = ground arith in rw (uuid, done) (ap ok it, refl, refl, refl)
      ]
    ]

    served-IsDone :
        (b : Application)
        → (serve w review s).0.answer.payload ≡ some (of_application b)
        → (reviewer : Caller) × IsDone reviewer b (serve w review s).1
    served-IsDone b e = elim (serve_gate w c s (update_status id status)) [
      | stranger _ out ↦ let refused : none ≡ some (of_application b) = rw out at e in cc
      | outsider _ _ _ out ↦ let refused : none ≡ some (of_application b) = rw out at e in cc
      | malformed _ _ _ _ out ↦ let refused : none ≡ some (of_application b) = rw out at e in cc
      | handled u _ _ _ out ↦
          (caller (profile u), rw out (handled-IsDone (profile u) b (rw out at e)))
    ]

    -- the application is still there, as reviewed
    there_after :
        (b : Application) (t : Store w)
        → 1 ≤ tally (Applications.has_id b.id) (w.apps.rows t.apps_table)
        → (a : Application) × (w.apps.find_one (Applications.has_id b.id) t.apps_table ≡ some a)
    there_after b t h =
        elim (Option-cases (w.apps.find_one (Applications.has_id b.id) t.apps_table)) [
          | inl lost ↦ absurd (
              omega (arith, h, w.apps.find_one_misses (Applications.has_id b.id) t.apps_table lost))
          | inr found ↦ found
        ]

    -- Where keys are fresh and the tables are sound, if a review is answered with the application,
    -- and the poster of its job has an address, then once the listener has had as many turns as
    -- events wait, this change has been sent to this address.
    pub review_told :
        (b : Application) (job : Job) (employer : User) (url : String)
        → IsSound w s
        → (serve w review s).0.answer.payload ≡ some (of_application b)
        → In job (w.jobs.rows s.jobs_table)
        → job.id ≡ b.job
        → w.users.find_one (Users.has_id job.posted_by) s.users_table ≡ some employer
        → employer.webhook_url ≡ some url
        → (url == "") ≡ false
        → In
            (delivery w.users w.jobs w.apps w.logs w.post w.sign url (event b job))
            (run w (turns (waiting w (serve w review s).1)) (serve w review s).1).sent
    unfolding reviewed
    review_told b job employer url h e posted of_job known has_url nonempty =
        let t = (serve w review s).1 in
        let (reviewer, (ok_b, same_users, apps_after, events_after)) = served-IsDone b e in
        let (a, its_job, a_in, a_id, j_in, j_id, may, b_is, rows, js, events) =
          update_status_success w.apps w.jobs id status reviewer c.timestamp (apps_part w s) b
            h.apps.sound.has_jobs h.apps.sound.unique_ids ok_b in
        let same_job : job ≡ its_job =
          same_row (λ j. j.id) (w.jobs.rows s.jobs_table) job its_job h.jobs.job_keys posted j_in
            (of_job ∙ ap (λ x. x.job) b_is ∙ sym j_id) in
        let same_event : event b job ≡ event a its_job =
          ap (λ x. event x job) b_is ∙ ap (λ j. event a j) same_job in
        let waits : t.events ≡ s.events ++ event b job ∷ [] =
          events_after ∙ events ∙ ap (λ x. s.events ++ x ∷ []) (sym same_event) in
        let row : In b (
            rewrite (Applications.has_id id) (reviewed_as status reviewer)
              (w.apps.rows s.apps_table)) =
          subst
            (λ x. In x (
              rewrite (Applications.has_id id) (reviewed_as status reviewer)
                (w.apps.rows s.apps_table)))
            (sym b_is)
            (In-rewrite (Applications.has_id id) (reviewed_as status reviewer) a
              (w.apps.rows s.apps_table) a_in (rw a_id (eq_refl id))) in
        let (found, is_found) =
          there_after b t
            (rw (apps_after, rows) (tally-In (Applications.has_id b.id) b _ row (eq_refl b.id))) in
        rw waits (
          reaches w fresh (event b job) employer url found has_url nonempty s.events [] t waits
            (served-IsSound w fresh c (guarded (update_status id status)) s h)
            (rw same_users known, is_found))
