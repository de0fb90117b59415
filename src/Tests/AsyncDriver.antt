-- ===== src/Tests/AsyncDriver.antt =====
-- Connections and cursors of the asynchronous driver.
use aurora_data_api.Base.{
  inl, ◌≡◌, refl, true, false, none, some, [], ◌∷◌, ◌+◌, some, some, some, some, some, some,
}
use aurora_data_api.Base.Text.{codes}
use aurora_data_api.Base.Exec.{ok, raised}
use aurora_data_api.Platform.{ExecuteArgs}
use aurora_data_api.Env.{Connection, PagingState, Env}
use aurora_data_api.Source.{one, all, replay, run}
use aurora_data_api.Connection.{set_transaction, end_args}
use aurora_data_api.Connect.{Environment, client_in}
use aurora_data_api.Connect as SyncConnect
use aurora_data_api.Connect.Laws.{arn}
use aurora_data_api.Cursor.{with_cursor}
use aurora_data_api.Async.Cursor.{pop_buffered_row}
use aurora_data_api.Cursor.Execute as SyncExecute
use aurora_data_api.Cursor.Fetch as SyncFetch
use aurora_data_api.Async.Lifecycle.{Loop, Opened}
use aurora_data_api.Async.Connection.{
  prepare_execute_args, rollback_active, shielded, commit, rollback, aexit, end_block,
}
use aurora_data_api.Async.Connection.Laws.{
  CommitOutcome, commit_async_outcome, aexit-args, aexit_releases,
}
use aurora_data_api.Async.Connect.{ConnectArgs, connect, no_split}
use aurora_data_api.Async.Connect.Laws.{sync_args, connect_without_region}
use aurora_data_api.Async.Cursor.Fetch as AsyncFetch
use aurora_data_api.Async.Cursor.Same.{fetches_same}
use aurora_data_api.Async.Adapted.{Adapted, async_soft_close}
use aurora_data_api.Async.Adapted.Drained.{fetch, outside, async_soft_close-replay}
use aurora_data_api.Tests.Clients.{Answering, fresh}
use aurora_data_api.Tests.Library.{Encoded}

-- A task that is cancelled while it waits for a rollback, which does not land.
abbrev interrupted : Loop Answering
interrupted = record {
  enter_client = λ region w. (ok tt, w + 1);
  exit_client = λ w. (ok tt, w + 1);
  rollback_interrupted = λ args w. some w;
}

begun_async : Env Answering
unfolding fresh
begun_async = set_transaction (some (codes "tx1")) (fresh Answering 1)

commit_async_outcome_example :
    CommitOutcome begun_async
      (codes "tx1")
      (Answering.commit_transaction
        (end_args begun_async.connection (codes "tx1"))
        begun_async.world).0
      (commit begun_async)
unfolding begun_async fresh
commit_async_outcome_example = commit_async_outcome begun_async b't' (codes "x1") refl

abbrev opened : Opened Answering
opened = record { env = begun_async; region_name = none; client = true; client_ctx = true }

aexit_releases_example :
    ((aexit interrupted true opened).1.client_ctx ≡ false)
    × ((aexit interrupted true opened).0 ≡ (end_block interrupted true begun_async).0)
unfolding begun_async fresh end_block rollback rollback_active shielded
aexit_releases_example = aexit_releases interrupted true opened (λ w. refl) tt

aexit-args_example :
    (prepare_execute_args
      (aexit interrupted true opened).1.env.connection
      (codes "SELECT 1")).transaction_id
    ≡ none
aexit-args_example = aexit-args interrupted true opened (codes "SELECT 1") (inl refl)

abbrev without_arns : ConnectArgs
without_arns = record {
  aurora_cluster_arn = none;
  secret_arn = none;
  region_name = none;
  database = some (codes "db");
  charset = none;
  continue_after_timeout = none;
}

abbrev arn_environment : Environment
arn_environment = record {
  cluster_arn =
      some
        (arn (codes "arn") (codes "aws") (codes "rds") (codes "us-east-1") (codes "1:cluster:c"));
  secret_arn = none;
}

connect_without_region_example :
    (connect interrupted without_arns arn_environment 0 ≡ (raised no_split, 0))
    × ((connection : Connection) × (SyncConnect.connect (sync_args without_arns) arn_environment
          ≡ ok (client_in (some (codes "us-east-1")), connection)))
connect_without_region_example =
    connect_without_region interrupted without_arns arn_environment (codes "arn") (codes "aws")
      (codes "rds") (codes "us-east-1") (codes "1:cluster:c") 0 refl refl refl refl refl refl refl
      refl

abbrev select_args : ExecuteArgs
select_args = record {
  database = none;
  resource_arn = none;
  secret_arn = none;
  sql = codes "SELECT * FROM t";
  transaction_id = none;
  include_result_metadata = true;
  continue_after_timeout = none;
  parameters = none;
}

abbrev paging : PagingState
paging = record {
  execute_statement_args = select_args;
  records_per_page = 4;
  pg_cursor_name = codes "\"c\"";
}

paged_env : Env Answering
unfolding fresh
paged_env = with_cursor (λ c. record c { paging_state = some paging }) (fresh Answering 0)

fetches_same_example :
    (AsyncFetch.fetchone Encoded paged_env ≡ SyncFetch.fetchone Encoded paged_env)
    × (AsyncFetch.fetchmany Encoded (some 3) paged_env
        ≡ SyncFetch.fetchmany Encoded (some 3) paged_env)
    × (AsyncFetch.fetchall Encoded 5 paged_env ≡ SyncFetch.fetchall Encoded 5 paged_env)
fetches_same_example = fetches_same (λ args n name w. refl) Encoded (some 3) 5 paged_env

buffered : Env Answering
unfolding fresh
buffered = with_cursor (λ c. record c { buffer = some ([] ∷ []) }) (fresh Answering 0)

abbrev adapted : Adapted Answering
adapted = record {
  env = buffered;
  arraysize = 4;
  description = none;
  drained_rows = none;
  in_greenlet = true;
}

async_soft_close-replay_example :
    ((async_soft_close Encoded 2 adapted).0 ≡ ok tt)
    × ((run (fetch Encoded 0) (one ∷ all ∷ []) (outside (async_soft_close Encoded 2 adapted).1)).0
        ≡ ok (replay (one ∷ all ∷ []) ([] ∷ [])))
    × ((run
          (fetch Encoded 0)
          (one ∷ all ∷ [])
          (outside (async_soft_close Encoded 2 adapted).1)).1.env.world
        ≡ 0)
unfolding fresh buffered AsyncFetch.fetchall AsyncFetch.fetchone SyncExecute.new_cursor
    pop_buffered_row
async_soft_close-replay_example =
    async_soft_close-replay Encoded 2 0 adapted ([] ∷ [])
      (with_cursor (λ c. record c { buffer = some ([] ∷ []); buffer_idx = 1 }) (fresh Answering 0))
      (one ∷ all ∷ []) refl
