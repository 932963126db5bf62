-- ===== src/Settings/Tests.antt =====
-- Settings for a local server.
use job_application_api.Prelude.{◌≡◌, ◌≢◌, refl, none, some}
use job_application_api.Settings.{Env, check, get_database_config, app_data_source, redis_client}
use job_application_api.Settings.Check.{IsComplete, HasHost, check_passes}

abbrev local : Env
local = record {
  node_env = none;
  database_url = none;
  db_host = some "db";
  db_port = none;
  db_username = some "api";
  db_password = some "secret";
  db_name = some "jobs";
  db_ca_cert = none;
  redis_url = none;
  redis_host = some "cache";
  redis_port = none;
  redis_password = none;
}

port_unset : local.db_port ≢ some 0
port_unset e = cc

local_passes : check local ≡ none
unfolding check
local_passes = refl

check_passes_example :
    IsComplete (get_database_config local)
    × (app_data_source local ≡ get_database_config local)
    × HasHost (redis_client local)
check_passes_example = check_passes local local_passes port_unset
