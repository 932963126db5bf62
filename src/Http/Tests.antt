-- ===== src/Http/Tests.antt =====
-- The theorems on responses at concrete inputs.
use job_application_api.Prelude.{List, [], ◌∷◌}
use job_application_api.Users.{UserRole, employer, recruiter}

abbrev reviewers : List UserRole
reviewers = employer ∷ recruiter ∷ []
