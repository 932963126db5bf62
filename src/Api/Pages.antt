-- ===== src/Api/Pages.antt =====
-- How many rows a response carries.
use job_application_api.Prelude.{
  ℕ, ◌≤◌, ◌≡◌, refl, inl, inr, Bool, true, Option, none, some, length, arith, Bool-cases,
}
use job_application_api.Js.{Number}
use job_application_api.Exec.{Exec, Result, ok, err, Result-cases}
use job_application_api.Repository.{Repository}
use job_application_api.Pagination.{paginate, default}
use job_application_api.Pagination.Pages.{length-paginate}
use job_application_api.Users.{Profile, profile}
use job_application_api.Jobs
use job_application_api.Applications
use job_application_api.Http.{Handled, plain, envelope, intercept}
use job_application_api.Dtos.{is_page, naturals, query_jobs}
use job_application_api.Api.{
  PublicRequest, register, login, refresh, find_jobs, find_job, GuardedRequest, logout, create_job,
  update_job, remove_job, find_applications, find_mine, apply, update_status, find_users,
  update_role, register_webhook, find_logs, Request, public, guarded, Backend, Call, Body, of_jobs,
  of_applications, of_logs, PageMeta,
}
use job_application_api.Api.Routes.{remove_job_route, Store, returns, handle_public, handle_guarded}
use job_application_api.Api.Serve.{answered, answer, is_valid, serve}
use job_application_api.Api.Access.{serve_gate, stranger, outsider, malformed, handled}

-- the jobs, applications or logs of a response
abbrev pub listed : Body → ℕ
listed (of_jobs jobs) = length jobs
listed (of_applications apps) = length apps
listed (of_logs logs) = length logs
listed body = 0

-- the route whose page and limit nothing bounds
abbrev pub IsUnbounded : Request → Type 0
IsUnbounded (guarded (find_logs query)) = Unit
IsUnbounded r = ⊥

-- the page and the limit that have passed the validation
is_page-bounds :
    (page limit : Option Number)
    → is_page page limit ≡ true
    → (1 ≤ default 1 (naturals page))
      × (1 ≤ default 10 (naturals limit))
      × (default 10 (naturals limit) ≤ 50)
is_page-bounds page limit h = ground arith

abbrev body_of : Handled Body PageMeta → Body
body_of (plain a) = a
body_of (envelope a m) = a

paginate-le :
    {A : Type 0} {clash : A → A → Bool} (repo : Repository A clash) (key : A → ℕ) (p : A → Bool)
    (page limit : Option Number) (s : repo.State)
    → is_page page limit ≡ true
    → length (paginate repo key p (default 1 (naturals page)) (default 10 (naturals limit)) s).rows
      ≤ 50
paginate-le repo key p page limit s h =
    let (one, positive, most) = is_page-bounds page limit h in
    let (fits, _) =
      length-paginate repo key p s (default 1 (naturals page)) (default 10 (naturals limit)) one
        positive in
    omega (arith, fits, most)

module _ (w : Backend) where
  -- the call returned a body with at most 50 rows
  abbrev IsShort : Exec (Store w) (Handled Body PageMeta) → Store w → Type 0
  IsShort m s = (x : Handled Body PageMeta) → (m s).0 ≡ ok x → listed (body_of x) ≤ 50

  by_returns :
      {A : Type 0} (g : A → Handled Body PageMeta) (m : Exec (Store w) A) (s : Store w)
      → ((a : A) → listed (body_of (g a)) ≤ 50)
      → IsShort (returns w g m) s
  unfolding returns
  by_returns g m s h x e = elim (Result-cases (m s).0) [
    | inl (k, failed) ↦ let thrown : (returns w g m s).0 ≡ err k = rw failed refl in cc
    | inr (a, done) ↦
        let over : (returns w g m s).0 ≡ ok (g a) = rw done refl in
        let same : x ≡ g a = ground arith in rw same (h a)
  ]

  of_ok :
      (h x : Handled Body PageMeta)
      → Result.ok h ≡ ok x
      → listed (body_of h) ≤ 50
      → listed (body_of x) ≤ 50
  of_ok h x e fits = let same : x ≡ h = ground arith in rw same fits

  handle_public-IsShort :
      (c : Call) (r : PublicRequest) (s : Store w)
      → is_valid w (public r) ≡ true
      → IsShort (handle_public w c r) s
  unfolding handle_public is_valid Jobs.find_all
  handle_public-IsShort c (register dto) s v = by_returns _ _ s (λ a. omega arith)
  handle_public-IsShort c (login dto) s v = by_returns _ _ s (λ a. omega arith)
  handle_public-IsShort c (refresh token) s v = by_returns _ _ s (λ a. omega arith)
  handle_public-IsShort c (find_jobs query) s v = λ x e. of_ok _ x e (
      paginate-le w.jobs (λ j. j.created_at) (Jobs.matches w.like w.date (query_jobs query))
        query.page query.limit s.jobs_table v)
  handle_public-IsShort c (find_job id) s v = by_returns _ _ s (λ a. omega arith)

  handle_guarded-IsShort :
      (c : Call) (r : GuardedRequest) (p : Profile) (s : Store w)
      → (IsUnbounded (guarded r) → ⊥)
      → is_valid w (guarded r) ≡ true
      → IsShort (handle_guarded w c r p) s
  unfolding handle_guarded remove_job_route is_valid Applications.find_all Applications.find_mine
  handle_guarded-IsShort c logout p s b v = by_returns _ _ s (λ a. omega arith)
  handle_guarded-IsShort c (create_job dto) p s b v = by_returns _ _ s (λ a. omega arith)
  handle_guarded-IsShort c (update_job id dto) p s b v = by_returns _ _ s (λ a. omega arith)
  handle_guarded-IsShort c (remove_job id) p s b v = by_returns _ _ s (λ a. omega arith)
  handle_guarded-IsShort c (find_applications query) p s b v = λ x e.
      of_ok _ x e (paginate-le w.apps (λ a. a.created_at) _ query.page query.limit s.apps_table v)
  handle_guarded-IsShort c (find_mine query) p s b v = λ x e.
      of_ok _ x e (paginate-le w.apps (λ a. a.created_at) _ query.page query.limit s.apps_table v)
  handle_guarded-IsShort c (apply job_id cover_letter) p s b v = by_returns _ _ s (λ a. omega arith)
  handle_guarded-IsShort c (update_status id status) p s b v = by_returns _ _ s (λ a. omega arith)
  handle_guarded-IsShort c find_users p s b v = λ x e. of_ok _ x e (omega arith)
  handle_guarded-IsShort c (update_role id role) p s b v = by_returns _ _ s (λ a. omega arith)
  handle_guarded-IsShort c (register_webhook url) p s b v = by_returns _ _ s (λ a. omega arith)
  handle_guarded-IsShort c (find_logs query) p s b v = absurd (b tt)

  answered-listed :
      (r : Request) (x : Result (Handled Body PageMeta) × Store w) (b : Body)
      → ((h : Handled Body PageMeta) → x.0 ≡ ok h → listed (body_of h) ≤ 50)
      → (answer w r (answered w x).0).answer.payload ≡ some b
      → listed b ≤ 50
  unfolding answer answered intercept
  answered-listed r (err f, t) b h e = cc
  answered-listed r (ok (plain a), t) b h e =
      let same : b ≡ a = ground arith in rw same (h (plain a) refl)
  answered-listed r (ok (envelope a m), t) b h e =
      let same : b ≡ a = ground arith in rw same (h (envelope a m) refl)

  public_listed :
      (c : Call) (r : PublicRequest) (s : Store w) (b : Body)
      → (serve w (record c { request = public r }) s).0.answer.payload ≡ some b
      → listed b ≤ 50
  unfolding serve
  public_listed c r s b e = elim (Bool-cases (is_valid w (public r))) [
    | inl v ↦
        answered-listed (public r) (handle_public w (record c { request = public r }) r s) b
          (handle_public-IsShort _ r s v) (rw v at e)
    | inr v ↦ let refused : none ≡ some b = rw v at e in cc
  ]

  guarded_listed :
      (c : Call) (r : GuardedRequest) (s : Store w) (b : Body)
      → (IsUnbounded (guarded r) → ⊥)
      → (serve w (record c { request = guarded r }) s).0.answer.payload ≡ some b
      → listed b ≤ 50
  guarded_listed c r s b bounded e = elim (serve_gate w c s r) [
    | stranger _ out ↦ let refused : none ≡ some b = rw out at e in cc
    | outsider _ _ _ out ↦ let refused : none ≡ some b = rw out at e in cc
    | malformed _ _ _ _ out ↦ let refused : none ≡ some b = rw out at e in cc
    | handled u _ _ v out ↦
        answered-listed (guarded r)
          (handle_guarded w (record c { request = guarded r }) r (profile u) s) b
          (handle_guarded-IsShort _ r (profile u) s bounded v) (rw out at e)
  ]

  request_listed :
      (c : Call) (r : Request) (s : Store w) (b : Body)
      → (IsUnbounded r → ⊥)
      → (serve w (record c { request = r }) s).0.answer.payload ≡ some b
      → listed b ≤ 50
  request_listed c (public r) s b bounded e = public_listed c r s b e
  request_listed c (guarded r) s b bounded e = guarded_listed c r s b bounded e

  -- No response lists more than 50 jobs, applications or logs, whatever its query asks for, but the
  -- response of GET /webhooks/logs.
  pub serve-listed :
      (c : Call) (s : Store w) (b : Body)
      → (IsUnbounded c.request → ⊥)
      → (serve w c s).0.answer.payload ≡ some b
      → listed b ≤ 50
  serve-listed c s b bounded e = request_listed c c.request s b bounded e
