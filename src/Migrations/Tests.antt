-- ===== src/Migrations/Tests.antt =====
-- The migrations on an empty schema.
use job_application_api.Prelude.{◌≡◌, refl, some, [], ◌∷◌}
use job_application_api.Migrations.{Schema, execute_all}
use job_application_api.Migrations.Files.{
  migrations, index, webhook_logs_table, refresh_tokens_table, applications_table, jobs_table,
  users_table,
}
use job_application_api.Migrations.Closed.{IsClosed}
use job_application_api.Migrations.Undo.{migrate, revert, revert-migrate}

abbrev empty : Schema
empty = record { enums = []; tables = []; indexes = [] }

empty-IsClosed : IsClosed empty
empty-IsClosed = record { tables_fit = λ t m. absurd m; indexes_fit = λ i m. absurd m }

-- the schema that the migrations leave
abbrev built : Schema
built = record {
  enums =
      record {
        name = "application_status_enum";
        labels = "pending" ∷ "reviewed" ∷ "shortlisted" ∷ "rejected" ∷ "hired" ∷ [];
      }
      ∷ record { name = "job_status_enum"; labels = "open" ∷ "closed" ∷ [] }
      ∷ record {
        name = "user_role_enum";
        labels = "super_admin" ∷ "employer" ∷ "recruiter" ∷ "applicant" ∷ [];
      }
      ∷ [];
  tables =
      webhook_logs_table ∷ refresh_tokens_table ∷ applications_table ∷ jobs_table ∷ users_table
      ∷ [];
  indexes =
      index "idx_webhook_logs_application_id" "webhook_logs" "application_id"
      ∷ index "idx_refresh_tokens_user_id" "refresh_tokens" "user_id"
      ∷ index "idx_applications_status" "applications" "status"
      ∷ index "idx_applications_applicant_id" "applications" "applicant_id"
      ∷ index "idx_applications_job_id" "applications" "job_id"
      ∷ index "idx_jobs_created_at" "jobs" "created_at"
      ∷ index "idx_jobs_posted_by" "jobs" "posted_by"
      ∷ index "idx_jobs_location" "jobs" "location"
      ∷ index "idx_jobs_status" "jobs" "status"
      ∷ index "idx_users_email" "users" "email"
      ∷ [];
}

revert-migrate_example : revert migrations built ≡ some empty
unfolding migrate execute_all
revert-migrate_example = revert-migrate empty built empty-IsClosed refl
