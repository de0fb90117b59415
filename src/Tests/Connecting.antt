-- ===== src/Tests/Connecting.antt =====
-- A connection to a cluster that the environment names.
use aurora_data_api.Base.{◌≡◌, refl, false, none, some}
use aurora_data_api.Base.Text.{Text, codes}
use aurora_data_api.Base.Exec.{ok}
use aurora_data_api.Env.{Connection}
use aurora_data_api.Connect.{connect, ConnectArgs, Environment, client_in}
use aurora_data_api.Connect.Laws.{arn, connect-region_from_arn}

abbrev cluster : Text
cluster = arn (codes "arn") (codes "aws") (codes "rds") (codes "us-east-1") (codes "1:cluster:c")

abbrev no_args : ConnectArgs
no_args = record {
  aurora_cluster_arn = none;
  secret_arn = none;
  has_client = false;
  database = some (codes "db");
  charset = none;
  continue_after_timeout = none;
  region_name = none;
}

abbrev cluster_environment : Environment
cluster_environment = record { cluster_arn = some cluster; secret_arn = none }

connect-region_from_arn_example :
    (connection : Connection) × (connect no_args cluster_environment
      ≡ ok (client_in (some (codes "us-east-1")), connection))
connect-region_from_arn_example =
    connect-region_from_arn no_args cluster_environment (codes "arn") (codes "aws") (codes "rds")
      (codes "us-east-1") (codes "1:cluster:c") refl refl refl refl refl refl refl
