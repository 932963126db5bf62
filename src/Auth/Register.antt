-- ===== src/Auth/Register.antt =====
-- Which registrations succeed, and the account that they create.
use job_application_api.Prelude.{
  ℕ, ◌≤◌, String, ◌≡◌, refl, sym, ◌∙◌, ap, ◌⊎◌, inl, inr, true, false, List, [], ◌∷◌, ◌++◌, tally,
  ◌==◌, eq_iff, eq_refl, arith, Bool-cases, Option-cases,
}
use job_application_api.Exec.{http, Result, ok, err, conflict_exception}
use job_application_api.Repository.{Repository}
use job_application_api.Repository.Rows.{tally-In}
use job_application_api.Redis.{Redis}
use job_application_api.Users
use job_application_api.Users.{User, applicant, Profile, profile, find_by_email}
use job_application_api.Tokens.{RefreshToken, clash, Crypto, Surroundings}
use job_application_api.Auth
use job_application_api.Auth.{Store, with_users, create_user, email_free, register}

differ : ¬ (false ≡ true)
differ h = cc

same_test : (a b : String) → (a == b) ≡ (b == a)
same_test a b = elim (Bool-cases (b == a)) [
  | inl e ↦ let same = (eq_iff b a).0 e in rw e (rw same (eq_refl a))
  | inr e ↦ elim (Bool-cases (a == b)) [
    | inl h ↦
        let same = (eq_iff a b).0 h in
        absurd (differ (sym e ∙ ap (λ x. x == a) (sym same) ∙ eq_refl a))
    | inr h ↦ h ∙ sym e
  ]
]

tally-clash :
    (e : String) (us : List User) → tally (λ v. e == v.email) us ≡ tally (Users.has_email e) us
tally-clash e [] = refl
tally-clash e (u ∷ us) = ground (arith, same_test e u.email, tally-clash e us)

module _ (users : Repository User Users.clash) (tokens : Repository RefreshToken clash)
    (redis : Redis) (crypto : Crypto) (dto : Auth.RegisterDto) (env : Surroundings)
    (s : Store users tokens redis crypto) where
  abbrev pub out : Result Profile × Store users tokens redis crypto
  out = register users tokens redis crypto dto env s

  abbrev pub taken : ℕ
  taken = tally (Users.has_email dto.email) (users.rows s.users_table)

  abbrev pub newcomer : User
  newcomer =
      Auth.new_user users tokens redis crypto dto (crypto.hash env.salt dto.password) s.users_table

  abbrev pub Outcome : Type 0
  Outcome =
      ((out ≡ (
        err (http (conflict_exception "EMAIL_TAKEN" "An account with this email already exists.")),
        s,
      ))
        × (1 ≤ taken))
      ⊎ ((t : users.State) × (out ≡ (ok (profile newcomer), record s { users_table = t }))
          × (users.rows t ≡ users.rows s.users_table ++ newcomer ∷ [])
          × (taken ≡ 0))

  -- A registration with an email that an account has is refused, and changes nothing; every other
  -- one succeeds: it adds one account with the email, as an applicant and with the password's hash,
  -- changes no other table, and answers the account without the hash.
  pub register_outcome : Outcome
  unfolding register with_users create_user email_free find_by_email
  register_outcome =
      elim (Option-cases (users.find_one (Users.has_email dto.email) s.users_table)) [
        | inl missing ↦
            let none_has =
              users.find_one_misses (Users.has_email dto.email) s.users_table missing in
            elim (Option-cases (users.insert newcomer s.users_table)) [
              | inl e ↦ absurd (
                  users.insert_clashes newcomer s.users_table e
                    (tally-clash dto.email (users.rows s.users_table) ∙ none_has))
              | inr (t, e) ↦
                  inr (
                    t,
                    rw (missing, e) refl,
                    users.rows-insert newcomer s.users_table t e,
                    none_has,
                  )
            ]
        | inr (u, there) ↦ inl (
          rw there refl,
          tally-In (Users.has_email dto.email) u (users.rows s.users_table)
              (users.In-find_one (Users.has_email dto.email) s.users_table u there)
              (users.find_one_passes (Users.has_email dto.email) s.users_table u there),
        )
      ]
