-- ===== src/Tests/Clients.antt =====
-- Clients of the Data API to run the package against. Their state counts calls and seconds.
use aurora_data_api.Base.{ℕ, ◌+◌, none, some, [], ◌∷◌, if◌then◌else◌}
use aurora_data_api.Base.Text.{codes, contains}
use aurora_data_api.Base.Exec.{ok, raised}
use aurora_data_api.Convert.{long_field, string_field}
use aurora_data_api.Errors.Classes.{Exn, new_exn, unsupported_result, database_resuming}
use aurora_data_api.Base.Int.{pos}
use aurora_data_api.Platform.{Response, Platform}
use aurora_data_api.Errors.Factory.{no_classes}
use aurora_data_api.Env.{Connection, Env}
use aurora_data_api.Cursor.Execute.{new_cursor}

abbrev pub two_rows : Response
two_rows = record {
  records = some (
      (long_field (pos 1) ∷ string_field (codes "a") ∷ [])
      ∷ (long_field (pos 2) ∷ string_field (codes "b") ∷ [])
      ∷ []);
  column_metadata = some (
      record { column_name = codes "id"; type_name = codes "int4" }
      ∷ record { column_name = codes "name"; type_name = codes "text" }
      ∷ []);
  number_of_records_updated = none;
  generated_fields = none;
}

-- Answers every call.
abbrev pub Answering : Platform
Answering = record {
  State = ℕ;
  execute_statement = λ args w. (ok two_rows, w + 1);
  batch_execute_statement = λ args w. (ok tt, w + 1);
  begin_transaction = λ args w. (ok (some (codes "tx1")), w + 1);
  commit_transaction = λ args w. (ok (some (codes "Transaction Committed")), w + 1);
  rollback_transaction = λ args w. (ok tt, w + 1);
  sleep = λ d w. w + d;
  cursor_suffix = λ w. (codes "1700000000_abcdefgh", w);
}

abbrev pub too_large : Exn
too_large = new_exn unsupported_result (codes "The result exceeds the size limit")

-- Refuses every result but a page of one row.
abbrev pub Crowded : Platform
Crowded = record Answering {
  execute_statement = λ args w. (
    if contains (codes "FETCH FORWARD") args.sql
        then (if contains (codes "FORWARD 1 ") args.sql then ok two_rows else raised too_large)
        else ok two_rows,
    w + 1,
  );
}

abbrev pub still_resuming : Exn
still_resuming = new_exn database_resuming (codes "resuming after being auto-paused")

-- Is resuming whenever a transaction is begun.
abbrev pub Asleep : Platform
Asleep = record Answering { begin_transaction = λ args w. (raised still_resuming, w + 1) }

abbrev pub fresh_connection : Connection
fresh_connection = record {
  aurora_cluster_arn = some (codes "arn:aws:rds:us-east-1:1:cluster:c");
  secret_arn = some (codes "arn:aws:secretsmanager:us-east-1:1:secret:s");
  dbname = some (codes "db");
  charset = none;
  continue_after_timeout = none;
  transaction_id = none;
}

unfoldable pub fresh : (P : Platform) → P.State → Env P
fresh P w = record {
  connection = fresh_connection;
  cursor = new_cursor 4;
  factories = no_classes;
  world = w;
}
