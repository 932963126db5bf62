-- ===== src/Races/Tests.antt =====
-- Interleavings, and the theorems at concrete inputs.
use job_application_api.Prelude.{
  ◌<◌, String, ◌≡◌, ◌≢◌, refl, ◌⊎◌, true, none, List, [], ◌∷◌, ◌==◌, eq_iff, arith,
}
use job_application_api.Exec.{ok, err, fault}
use job_application_api.Repository.{Repository}
use job_application_api.Repository.Rows.{In}
use job_application_api.Repository.Memory.{memory}
use job_application_api.Users
use job_application_api.Users.{UserRole, super_admin, applicant, User}
use job_application_api.Users.Roles.{RoleChange, admins}
use job_application_api.Jobs
use job_application_api.Jobs.{Job, open_job, Caller}
use job_application_api.Applications
use job_application_api.Applications.{Application, Store, apply}
use job_application_api.Races.{
  World, Step, runs, Reach, here, next, checking, finished, Applying, loading, answered, advance,
  change,
}
use job_application_api.Races.Apply.{
  OneEach, Balanced, work, Reach-sound, Step-work, IsOver, advance-IsOver,
}
use job_application_api.Races.Answers.{incoming, race_fault}
use job_application_api.Races.Roles.{both as both_change, demoted, last_written, race_admins}

abbrev users : Repository User Users.clash
users = memory Users.clash (λ us. "u") (λ us. 0)

abbrev jobs : Repository Job Jobs.clash
jobs = memory Jobs.clash (λ js. "new") (λ js. 0)

abbrev apps : Repository Application Applications.clash
apps = memory Applications.clash (λ xs. "new") (λ xs. 0)

abbrev posting : Job
posting = record {
  id = "j";
  posted_by = "eve";
  title = "Cook";
  description = "Soup";
  location = "Oslo";
  status = open_job;
  created_at = 1;
}

abbrev tables : Store apps jobs
tables = record { apps_table = []; jobs_table = posting ∷ []; events = [] }

abbrev bob : Caller
bob = record { id = "bob"; role = applicant }

abbrev request : Applying
request = incoming apps jobs "j" "Hi" bob tables

abbrev one_request : World (Store apps jobs) Applying
one_request = record { store = tables; procs = request ∷ [] }

abbrev after_one : World (Store apps jobs) Applying
after_one = record { store = tables; procs = record request { phase = checking } ∷ [] }

first_step : Step (advance apps jobs) one_request after_one
unfolding advance
first_step = runs tables [] request []

Reach-sound_example : OneEach apps jobs after_one × Balanced apps jobs one_request after_one
Reach-sound_example =
    Reach-sound apps jobs one_request after_one (next here first_step) (λ job user. omega arith)

Step-work_example :
    (work after_one.procs < work one_request.procs)
    ⊎ (((q : Applying) × In q one_request.procs × IsOver apps jobs q) × (after_one ≡ one_request))
Step-work_example = Step-work apps jobs one_request after_one first_step

advance-IsOver_example :
    IsOver apps jobs
      (advance apps jobs (advance apps jobs (advance apps jobs request tables).0 tables).0 tables).0
advance-IsOver_example = advance-IsOver apps jobs request tables tables tables

race_fault_example :
    (t : Store apps jobs) × Reach
      (advance apps jobs)
      (record { store = tables; procs = request ∷ request ∷ [] })
      (record {
        store = t;
        procs =
            record request {
              phase = finished (
                  ok (record {
                    id = "new";
                    job = "j";
                    applicant = "bob";
                    cover_letter = "Hi";
                    status = Applications.pending;
                    reviewed_by = none;
                    created_at = 0;
                  }));
            }
            ∷ record request { phase = finished (err fault) }
            ∷ [];
      })
race_fault_example = race_fault apps jobs "j" "Hi" bob tables posting refl refl refl

abbrev admin : String → User
admin id = record {
  id = id;
  email = id;
  password_hash = "p";
  role = super_admin;
  full_name = id;
  webhook_url = none;
  created_at = 1;
}

abbrev two_admins : List User
two_admins = admin "ada" ∷ admin "eve" ∷ []

abbrev lower : RoleChange
lower = record { id = "ada"; role = applicant; by = "eve" }

apart : (admin "ada").id ≢ (admin "eve").id
apart e = let same : ((admin "ada").id == (admin "eve").id) ≡ true = (eq_iff _ _).1 e in cc

race_admins_example :
    Reach
      (change users)
      (both_change users
        (admin "ada")
        (admin "eve")
        applicant
        two_admins
        two_admins
        loading
        loading)
      (both_change users
        (admin "ada")
        (admin "eve")
        applicant
        two_admins
        (last_written users (admin "ada") (admin "eve") applicant two_admins refl refl)
        (answered
          (ok (demoted users (admin "ada") (admin "eve") applicant two_admins (admin "ada"))))
        (answered
          (ok (demoted users (admin "ada") (admin "eve") applicant two_admins (admin "eve")))))
    × (admins users (last_written users (admin "ada") (admin "eve") applicant two_admins refl refl)
        ≡ 0)
race_admins_example =
    race_admins users (admin "ada") (admin "eve") applicant two_admins refl refl apart refl refl
      refl refl
