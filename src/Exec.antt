-- ===== src/Exec.antt =====
-- Service methods: they read and write a state, and throw. What was written before a throw stays
-- written, so the state comes back beside the failure too.
use job_application_api.Prelude.{ℕ, String, Bool, true, false, ◌≡◌, refl, ◌⊎◌, inl, inr, arith}

-- an `HttpException` of NestJS, with the response `{ code, message }` that the source gives it
pub record HttpException : Type 0 where
  pub status : ℕ
  pub code : String
  pub message : String

-- the exception classes of NestJS that the source throws, with their statuses
abbrev pub unauthorized_exception : String → String → HttpException
unauthorized_exception c m = record { status = 401; code = c; message = m }

abbrev pub forbidden_exception : String → String → HttpException
forbidden_exception c m = record { status = 403; code = c; message = m }

abbrev pub not_found_exception : String → String → HttpException
not_found_exception c m = record { status = 404; code = c; message = m }

abbrev pub conflict_exception : String → String → HttpException
conflict_exception c m = record { status = 409; code = c; message = m }

-- what a call may throw: an exception for the client, or any other error (a driver error, a
-- TypeError)
pub data Failure : Type 0 where
  http : HttpException → Failure
  fault : Failure

pub data Result {ℓ} (A : Type ℓ) : Type ℓ where
  ok : A → Result A
  err : Failure → Result A

abbrev pub Exec {ℓ} : Type ℓ → Type ℓ → Type ℓ
Exec S A = S → Result A × S

abbrev pub pure {ℓ} : {S A : Type ℓ} → A → Exec S A
pure a s = (ok a, s)

abbrev pub throw {ℓ} : {S A : Type ℓ} → HttpException → Exec S A
throw e s = (err (http e), s)

abbrev pub gets {ℓ} : {S A : Type ℓ} → (S → A) → Exec S A
gets f s = (ok (f s), s)

abbrev pub modify {ℓ} : {S : Type ℓ} → (S → S) → Exec S (Unit {ℓ})
modify f s = (ok tt, f s)

abbrev pub continue {ℓ} : {S A B : Type ℓ} → Result A → (A → Exec S B) → Exec S B
continue (ok a) f s = f a s
continue (err e) f s = (err e, s)

infixl 5 ◌>>=◌ ◌>>◌
abbrev pub ◌>>=◌ {ℓ} : {S A B : Type ℓ} → Exec S A → (A → Exec S B) → Exec S B
◌>>=◌ m f s = let r = m s in continue r.0 f r.1

abbrev pub ◌>>◌ {ℓ} : {S A B : Type ℓ} → Exec S A → Exec S B → Exec S B
m >> n = m >>= λ _. n

-- `if (b) throw e`
abbrev pub throw_if {ℓ} : {S : Type ℓ} → Bool → HttpException → Exec S (Unit {ℓ})
throw_if true e = throw e
throw_if false e = pure tt

-- A call that is known to throw throws that, and leaves the state that is known.
pub failure_of {ℓ} :
    {S A : Type ℓ} (r : Result A × S) {g f : Failure} {s : S}
    → r ≡ (err g, s)
    → r.0 ≡ err f
    → (r.1 ≡ s) × (f ≡ g)
failure_of r e h = ground arith

-- A call that is known to return returns that, and leaves the state that is known.
pub success_of {ℓ} :
    {S A : Type ℓ} (r : Result A × S) {a b : A} {s : S}
    → r ≡ (ok a, s)
    → r.0 ≡ ok b
    → (r.1 ≡ s) × (b ≡ a)
success_of r e h = ground arith

pub Result-cases {ℓ} :
    {A : Type ℓ} (r : Result A) → ((f : Failure) × (r ≡ err f)) ⊎ ((a : A) × (r ≡ ok a))
Result-cases (err f) = inl (f, refl)
Result-cases (ok a) = inr (a, refl)
