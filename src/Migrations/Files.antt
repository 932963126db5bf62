-- ===== src/Migrations/Files.antt =====
-- The migrations of src/migrations, in the order of their time stamps.
use job_application_api.Prelude.{String, true, false, none, some, List, [], ◌∷◌}
use job_application_api.Migrations.{
  ColumnType, uuid, varchar, text, timestamp, boolean, jsonb, int, enum, cascade, set_null, Column,
  Table, Index, create_type, create_table, create_index, drop_table, drop_type, Migration,
}

-- `id UUID PRIMARY KEY DEFAULT gen_random_uuid()`
abbrev key : Column
key = record {
  name = "id";
  holds = uuid;
  nullable = false;
  default = some "gen_random_uuid()";
  references = none;
}

abbrev not_null : String → ColumnType → Column
not_null name holds = record {
  name = name;
  holds = holds;
  nullable = false;
  default = none;
  references = none;
}

abbrev null : String → ColumnType → Column
null name holds = record {
  name = name;
  holds = holds;
  nullable = true;
  default = none;
  references = none;
}

abbrev defaults : String → ColumnType → String → Column
defaults name holds value = record {
  name = name;
  holds = holds;
  nullable = false;
  default = some value;
  references = none;
}

-- `UUID NOT NULL REFERENCES to(id) ON DELETE CASCADE`
abbrev belongs : String → String → Column
belongs name to = record {
  name = name;
  holds = uuid;
  nullable = false;
  default = none;
  references = some (record { to = to; on_delete = cascade });
}

abbrev pub index : String → String → String → Index
index name on column = record { name = name; on = on; column = column }

abbrev pub users_table : Table
users_table = record {
  name = "users";
  columns =
      key
      ∷ not_null "email" varchar
      ∷ not_null "password_hash" varchar
      ∷ not_null "role" (enum "user_role_enum")
      ∷ not_null "full_name" varchar
      ∷ null "webhook_url" varchar
      ∷ defaults "created_at" timestamp "now()"
      ∷ [];
  uniques = ("email" ∷ []) ∷ [];
}

abbrev pub create_users : Migration
create_users = record {
  up =
      create_type (record {
        name = "user_role_enum";
        labels = "super_admin" ∷ "employer" ∷ "recruiter" ∷ "applicant" ∷ [];
      })
      ∷ create_table users_table
      ∷ create_index (index "idx_users_email" "users" "email")
      ∷ [];
  down = drop_table "users" ∷ drop_type "user_role_enum" ∷ [];
}

abbrev pub jobs_table : Table
jobs_table = record {
  name = "jobs";
  columns =
      key
      ∷ belongs "posted_by" "users"
      ∷ not_null "title" varchar
      ∷ not_null "description" text
      ∷ not_null "location" varchar
      ∷ defaults "status" (enum "job_status_enum") "open"
      ∷ defaults "created_at" timestamp "now()"
      ∷ [];
  uniques = [];
}

abbrev pub create_jobs : Migration
create_jobs = record {
  up =
      create_type (record { name = "job_status_enum"; labels = "open" ∷ "closed" ∷ [] })
      ∷ create_table jobs_table
      ∷ create_index (index "idx_jobs_status" "jobs" "status")
      ∷ create_index (index "idx_jobs_location" "jobs" "location")
      ∷ create_index (index "idx_jobs_posted_by" "jobs" "posted_by")
      ∷ create_index (index "idx_jobs_created_at" "jobs" "created_at")
      ∷ [];
  down = drop_table "jobs" ∷ drop_type "job_status_enum" ∷ [];
}

abbrev pub applications_table : Table
applications_table = record {
  name = "applications";
  columns =
      key
      ∷ belongs "job_id" "jobs"
      ∷ belongs "applicant_id" "users"
      ∷ not_null "cover_letter" text
      ∷ defaults "status" (enum "application_status_enum") "pending"
      ∷ record {
        name = "reviewed_by";
        holds = uuid;
        nullable = true;
        default = none;
        references = some (record { to = "users"; on_delete = set_null });
      }
      ∷ defaults "created_at" timestamp "now()"
      ∷ [];
  uniques = ("job_id" ∷ "applicant_id" ∷ []) ∷ [];
}

abbrev pub create_applications : Migration
create_applications = record {
  up =
      create_type (record {
        name = "application_status_enum";
        labels = "pending" ∷ "reviewed" ∷ "shortlisted" ∷ "rejected" ∷ "hired" ∷ [];
      })
      ∷ create_table applications_table
      ∷ create_index (index "idx_applications_job_id" "applications" "job_id")
      ∷ create_index (index "idx_applications_applicant_id" "applications" "applicant_id")
      ∷ create_index (index "idx_applications_status" "applications" "status")
      ∷ [];
  down = drop_table "applications" ∷ drop_type "application_status_enum" ∷ [];
}

abbrev pub refresh_tokens_table : Table
refresh_tokens_table = record {
  name = "refresh_tokens";
  columns =
      key
      ∷ belongs "user_id" "users"
      ∷ not_null "token_hash" varchar
      ∷ not_null "expires_at" timestamp
      ∷ defaults "revoked" boolean "false"
      ∷ [];
  uniques = [];
}

abbrev pub create_refresh_tokens : Migration
create_refresh_tokens = record {
  up =
      create_table refresh_tokens_table
      ∷ create_index (index "idx_refresh_tokens_user_id" "refresh_tokens" "user_id")
      ∷ [];
  down = drop_table "refresh_tokens" ∷ [];
}

abbrev pub webhook_logs_table : Table
webhook_logs_table = record {
  name = "webhook_logs";
  columns =
      key
      ∷ belongs "application_id" "applications"
      ∷ not_null "event_type" varchar
      ∷ not_null "payload" jsonb
      ∷ null "status_code" int
      ∷ defaults "delivered_at" timestamp "now()"
      ∷ [];
  uniques = [];
}

abbrev pub create_webhook_logs : Migration
create_webhook_logs = record {
  up =
      create_table webhook_logs_table
      ∷ create_index (index "idx_webhook_logs_application_id" "webhook_logs" "application_id")
      ∷ [];
  down = drop_table "webhook_logs" ∷ [];
}

abbrev pub migrations : List Migration
migrations =
    create_users ∷ create_jobs ∷ create_applications ∷ create_refresh_tokens ∷ create_webhook_logs
    ∷ []
