-- ===== src/Naming/Tests.antt =====
-- Names of the entities.
use job_application_api.Prelude.{arith, ◌≡◌, refl, none}
use job_application_api.Js.{to_lower_case}
use job_application_api.Naming.{underscored, snake, table_name, column_name, join_column_name}
use job_application_api.Naming.Columns.{camel, camel-column_name}

columns :
    (column_name "webhookUrl" none ≡ "webhook_url")
    × (table_name "RefreshToken" none ≡ "refresh_token")
    × (join_column_name "postedBy" "id" ≡ "posted_by_id")
unfolding column_name table_name snake join_column_name to_lower_case underscored
columns = (refl, refl, refl)

camel-column_name_example : camel (column_name "fullName" none) ≡ "fullName"
camel-column_name_example = camel-column_name "fullName" (
  refl,
  omega arith,
  (
    refl,
    omega arith,
    (
      refl,
      omega arith,
      (
        refl,
        omega arith,
        (refl, omega arith, (refl, omega arith, (refl, omega arith, (refl, omega arith, tt)))),
      ),
    ),
  ),
)
