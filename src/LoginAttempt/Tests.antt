-- ===== src/LoginAttempt/Tests.antt =====
-- The theorems on the lockout at concrete inputs.
use job_application_api.Prelude.{
  ℕ, ◌<◌, String, ◌≡◌, ◌≢◌, refl, true, false, List, [], ◌∷◌, All, eq_iff, arith,
}
use job_application_api.Redis.Memory.{memory}
use job_application_api.LoginAttempt.{is_locked}
use job_application_api.LoginAttempt.Lockout.{failures, is_locked-failures}

abbrev times : List ℕ
times = 10 ∷ 20 ∷ 30 ∷ 40 ∷ []

times_early : All (λ t. t < 900) times
times_early = (omega arith, (omega arith, (omega arith, (omega arith, tt))))

is_locked-failures_example :
    is_locked memory "a@x.org" 50 (failures memory "a@x.org" (0 ∷ times) []) ≡ true
is_locked-failures_example = is_locked-failures memory "a@x.org" 0 50 times [] refl times_early

abbrev ann : String
ann = "a@x.org"

abbrev ben : String
ben = "b@x.org"

emails_differ : ann ≢ ben
emails_differ h = let e : false ≡ true = (eq_iff "a@x.org" "b@x.org").1 h in cc
