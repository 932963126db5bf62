-- ===== src/Auth/Login.antt =====
-- When a login succeeds, and what failed logins lead to.
use job_application_api.Prelude.{
  ℕ, suc, ◌+◌, ◌≤◌, ◌<◌, String, ◌≡◌, refl, ◌∙◌, ap, ◌↔◌, inl, inr, Bool, true, false, Option, none,
  some, List, [], ◌∷◌, All, length, tally, ◌==◌, eq_refl, arith, if◌then◌else◌, Bool-cases,
  Option-cases,
}
use job_application_api.Exec.{http, Result, ok, err}
use job_application_api.Repository.{Repository}
use job_application_api.Repository.Rows.{tally-append}
use job_application_api.Redis.{Redis, live}
use job_application_api.LoginAttempt.{
  max_attempts, lockout_ttl, key_of, record_failed_attempt, is_locked, reset_attempts,
}
use job_application_api.LoginAttempt.Lockout.{Counts, first_failure, next_failure, locked_of}
use job_application_api.Users
use job_application_api.Users.{User, find_by_email}
use job_application_api.Tokens.{RefreshToken, clash, Crypto, Surroundings, Tokens, active}
use job_application_api.Auth.{
  Store, account, LoginResponse, account_locked, invalid_credentials, with_users, generate_tokens,
  check_password, fail_attempt, login,
}
use job_application_api.Auth.Sessions.{
  active-owner, rows, generate_tokens_lem, generate_tokens_cache,
}

module _ (users : Repository User Users.clash) (tokens : Repository RefreshToken clash)
    (redis : Redis) (crypto : Crypto) where
  abbrev pub S : Type 0
  S = Store users tokens redis crypto

  -- the password is that of the account, if there is one
  abbrev pub opens : String → Option User → Bool
  opens password none = false
  opens password (some u) = crypto.compare password u.password_hash

  abbrev pub account_of : String → S → Option User
  account_of email s = users.find_one (Users.has_email email) s.users_table

  abbrev pub sessions : String → S → ℕ
  sessions user s = tally (active user) (rows users tokens redis crypto s)

  module _ (email password : String) (env : Surroundings) (s : S) where
    abbrev pub out : Result LoginResponse × S
    out = login users tokens redis crypto email password env s

    abbrev pub counted : S
    counted = record s { cache = (record_failed_attempt redis email env.now s.cache).1 }

    pub login_locked :
        is_locked redis email env.now s.cache ≡ true
        → out ≡ (err (http (account_locked "Too many failed attempts. Please try again later.")), s)
    unfolding login
    login_locked h = rw h refl

    -- tokens came back, the failures are forgotten, and the account has one active session more
    abbrev pub IsOpened : User → Type 0
    IsOpened u =
        (r : LoginResponse) × (out.0 ≡ ok r)
        × (r.user ≡ account (Users.credentials u))
        × (redis.entry (key_of email) out.1.cache ≡ none)
        × ((user : String)
            → sessions user out.1 ≡ sessions user s + (if u.id == user then 1 else 0))

    module _ (unlocked : is_locked redis email env.now s.cache ≡ false) where
      pub login_unknown :
          account_of email s ≡ none → out ≡ (err (http invalid_credentials), counted)
      unfolding login with_users find_by_email check_password fail_attempt
      login_unknown h = rw (unlocked, h) refl

      pub login_wrong :
          (u : User)
          → account_of email s ≡ some u
          → crypto.compare password u.password_hash ≡ false
          → out ≡ (
            err (
                http (
                  if (record_failed_attempt redis email env.now s.cache).0.locked
                  then account_locked "Account locked due to too many failed attempts."
                  else invalid_credentials)),
            counted,
          )
      unfolding login with_users find_by_email check_password fail_attempt
      login_wrong u h wrong =
          rw (unlocked, h, wrong)
            (elim (Bool-cases (record_failed_attempt redis email env.now s.cache).0.locked) [
              | inl e ↦ rw e refl
              | inr e ↦ rw e refl
            ])

      module _ (u : User) (there : account_of email s ≡ some u)
          (right : crypto.compare password u.password_hash ≡ true) where
        abbrev pub cleared : S
        cleared = record s { cache = reset_attempts redis email s.cache }

        abbrev pub issue : Result Tokens × S
        issue = generate_tokens users tokens redis crypto u.id u.email u.role env cleared

        abbrev pub response : Tokens → LoginResponse
        response t = record { user = account (Users.credentials u); tokens = t }

        pub login_right : (t : Tokens) → issue.0 ≡ ok t → out ≡ (ok (response t), issue.1)
        unfolding login with_users find_by_email check_password fail_attempt
        login_right t h = rw (unlocked, there, right, h) refl

        login_opens : IsOpened u
        unfolding reset_attempts
        login_opens =
            let (row, t, e, rows_after, owner, fresh, _) =
              generate_tokens_lem users tokens redis crypto u.id u.email u.role env cleared in
            let same = login_right t e in
            (
              response t,
              rw same refl,
              refl,
              rw same (
                  rw
                    (
                      generate_tokens_cache users tokens redis crypto u.id u.email u.role env
                          cleared,
                      redis.entry-del,
                      eq_refl,
                    )
                    refl),
              λ user. rw same (
                  rw rows_after (
                    tally-append (active user) (rows users tokens redis crypto s) (row ∷ [])
                    ∙ rw (active-owner row u.id user owner fresh) refl)),
            )

    -- A login that returns tokens opens a session: the account, not locked and with that password,
    -- has one active session more, all others have as many as before, and its failures are
    -- forgotten.
    pub login_success :
        (r : LoginResponse)
        → out.0 ≡ ok r
        → (is_locked redis email env.now s.cache ≡ false)
          × ((u : User) × (account_of email s ≡ some u)
              × (crypto.compare password u.password_hash ≡ true)
              × IsOpened u)
    login_success r h = elim (Bool-cases (is_locked redis email env.now s.cache)) [
      | inl e ↦ let l = login_locked e in cc
      | inr e ↦ (
        e,
        elim (Option-cases (account_of email s)) [
          | inl missing ↦ let l = login_unknown e missing in cc
          | inr (u, there) ↦ elim (Bool-cases (crypto.compare password u.password_hash)) [
            | inl right ↦ (u, there, right, login_opens e u there right)
            | inr wrong ↦ let l = login_wrong e u there wrong in cc
          ]
        ],
      )
    ]

    -- A login returns tokens exactly when the account is not locked, and is there with that
    -- password.
    pub login_iff : ((r : LoginResponse) × (out.0 ≡ ok r)) ↔ (
        (is_locked redis email env.now s.cache ≡ false)
        × (opens password (account_of email s) ≡ true))
    login_iff = (
      λ h.
          let (unlocked, (u, there, right, opened)) = login_success h.0 h.1 in
          (unlocked, rw there right),
      λ h. elim (Option-cases (account_of email s)) [
        | inl missing ↦ let no_account : false ≡ true = rw missing at h.1 in cc
        | inr (u, there) ↦
            let right : crypto.compare password u.password_hash ≡ true = rw there at h.1 in
            let opened = login_opens h.0 u there right in (opened.0, opened.1)
      ],
    )

    -- a login with another password changes the count of failures, and nothing else
    pub counted_lem :
        is_locked redis email env.now s.cache ≡ false
        → opens password (account_of email s) ≡ false
        → out.1 ≡ counted
    counted_lem unlocked fails = elim (Option-cases (account_of email s)) [
      | inl missing ↦ ap (λ r. r.1) (login_unknown unlocked missing)
      | inr (u, there) ↦
          let wrong : crypto.compare password u.password_hash ≡ false = rw there at fails in
          ap (λ r. r.1) (login_wrong unlocked u there wrong)
    ]

  -- the state after logins to an account with these passwords
  pub tries : String → List (String × Surroundings) → S → S
  tries email [] s = s
  tries email (a ∷ later) s = tries email later (login users tokens redis crypto email a.0 a.1 s).1

  -- none of the passwords is that of the account
  abbrev pub AllWrong : String → S → List (String × Surroundings) → Type 0
  AllWrong email s = All (λ a. opens a.0 (account_of email s) ≡ false)

  module _ (email : String) where
    tries_step :
        (a : String × Surroundings) (later : List (String × Surroundings)) (s : S)
        → is_locked redis email a.1.now s.cache ≡ false
        → opens a.0 (account_of email s) ≡ false
        → tries email (a ∷ later) s ≡ tries email later (counted email a.0 a.1 s)
    unfolding tries
    tries_step a later s unlocked wrong =
        ap (tries email later) (counted_lem email a.0 a.1 s unlocked wrong)

    more_tries :
        (n t : ℕ) (later : List (String × Surroundings)) (s : S)
        → 1 ≤ n
        → n + length later ≤ max_attempts
        → Counts redis email n t s.cache
        → All (λ a. a.1.now < t) later
        → AllWrong email s later
        → Counts redis email (n + length later) t (tries email later s).cache
    unfolding tries
    more_tries n t [] s h few c early wrong = let e : n + 0 ≡ n = omega arith in rw e c
    more_tries n t (a ∷ later) s h few c early wrong =
        let unlocked : is_locked redis email a.1.now s.cache ≡ false =
          locked_of redis email n t a.1.now s.cache c ∙ ground (arith, early.0) in
        let e : n + suc (length later) ≡ n + 1 + length later = omega arith in
        rw (e, tries_step a later s unlocked wrong.0)
          (more_tries (n + 1) t later (counted email a.0 a.1 s) (omega arith) (omega arith)
            (next_failure redis email n t a.1.now s.cache h c early.0).1 early.1 wrong.1)

    unlocked_new :
        (now : ℕ) (cache : redis.State)
        → live now (redis.entry (key_of email) cache) ≡ none
        → is_locked redis email now cache ≡ false
    unfolding is_locked
    unlocked_new now cache new = rw (redis.get_lem, new) refl

    -- After five logins to an account with wrong passwords, the first of them with no failure
    -- counted and the others within 900 seconds of it, every login is refused, whatever the
    -- password, and changes nothing, until the 900 seconds are over.
    pub login_lockout :
        (first : String × Surroundings) (later : List (String × Surroundings)) (password : String)
        (env : Surroundings) (s : S)
        → length later ≡ 4
        → live first.1.now (redis.entry (key_of email) s.cache) ≡ none
        → AllWrong email s (first ∷ later)
        → All (λ a. a.1.now < first.1.now + lockout_ttl) later
        → env.now < first.1.now + lockout_ttl
        → login users tokens redis crypto email password env (tries email (first ∷ later) s) ≡ (
          err (http (account_locked "Too many failed attempts. Please try again later.")),
          tries email (first ∷ later) s,
        )
    login_lockout first later password env s four new wrong early soon =
        let start = first.1.now in
        let counts : Counts redis email (1 + length later) (start + lockout_ttl)
            (tries email (first ∷ later) s).cache =
          rw (tries_step first later s (unlocked_new start s.cache new) wrong.0) (
            more_tries 1 (start + lockout_ttl) later (counted email first.0 first.1 s) (omega arith)
              (omega (arith, four)) (first_failure redis email start s.cache new) early wrong.1) in
        login_locked email password env (tries email (first ∷ later) s) (
          locked_of redis email (1 + length later) (start + lockout_ttl) env.now _ counts
          ∙ ground (arith, four, soon))
