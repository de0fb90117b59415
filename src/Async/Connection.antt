-- ===== src/Async/Connection.antt =====
-- `AsyncAuroraDataAPIClient` of async_driver.py: transactions and the arguments of a statement. The
-- methods that call the client are those of a connection that has one.
pub mod Laws
use aurora_data_api.Base.{Bool, true, false, Option, none, some, [], ◌∷◌, if◌then◌else◌}
use aurora_data_api.Base.Text.{Text, codes, text_eq}
use aurora_data_api.Base.Exec.{Result, Exec, ok, raised, diverged, raise, try_except, ◌>>=◌, ◌>>◌}
use aurora_data_api.Errors.Classes.{
  Exn, new_exn, database_error_from, database_error, exception, is_instance,
}
use aurora_data_api.Retry.{retry_resuming}
use aurora_data_api.Platform.{EndArgs, ExecuteArgs, Platform}
use aurora_data_api.Env.{Connection, Env, call, sleeping}
use aurora_data_api.Connection.{
  is_set, is_database_exception, begin_args, end_args, set_transaction, raise_translated,
  keep_transaction, committed_status,
}
use aurora_data_api.Async.Lifecycle.{Loop, Opened, on_env, close, cancelled}

-- `_prepare_execute_args`
unfoldable pub prepare_execute_args : Connection → Text → ExecuteArgs
prepare_execute_args c operation = record {
  database = c.dbname;
  resource_arn = c.aurora_cluster_arn;
  secret_arn = c.secret_arn;
  sql = operation;
  transaction_id = if is_set c.transaction_id then c.transaction_id else none;
  include_result_metadata = false;
  continue_after_timeout = none;
  parameters = none;
}

module _ {P : Platform} where
  -- The two `except` clauses of `start_transaction`.
  begin_failed : {A : Type 0} → Exn → Exec Exn (Env P) A
  unfolding raise_translated
  begin_failed e =
      if is_database_exception e
      then raise_translated e
      else if is_instance e exception
      then raise (database_error_from e)
      else raise e

  begin_or_current : Option Text → Exec Exn (Env P) Text
  unfolding begin_failed
  begin_or_current (some tx) env = (ok tx, env)
  begin_or_current none env =
      (try_except (call (P.begin_transaction (begin_args env.connection))) begin_failed
          >>= keep_transaction)
        env

  pub start_transaction_once : Exec Exn (Env P) Text
  unfolding begin_or_current
  start_transaction_once env = begin_or_current env.connection.transaction_id env

  unfoldable pub start_transaction : Exec Exn (Env P) Text
  unfolding start_transaction_once
  start_transaction = retry_resuming sleeping start_transaction_once

  -- `res.get("transactionStatus") != "Transaction Committed"`, and what follows.
  committed : Option Text → Exec Exn (Env P) (Unit {0})
  committed none = raise (new_exn database_error (codes "Error while committing transaction"))
  committed (some status) =
      if text_eq status committed_status
      then (λ env. (ok tt, set_transaction none env))
      else raise (new_exn database_error (codes "Error while committing transaction"))

  commit_active : Option Text → Exec Exn (Env P) (Unit {0})
  unfolding committed
  commit_active none env = (ok tt, env)
  commit_active (some []) env = (ok tt, env)
  commit_active (some (c ∷ tx)) env =
      (call (P.commit_transaction (end_args env.connection (c ∷ tx))) >>= committed) env

  pub commit : Exec Exn (Env P) (Unit {0})
  unfolding commit_active
  commit env = commit_active env.connection.transaction_id env

  module _ (loop : Loop P) where
    -- The shielded wait for the request: its result, or CancelledError if the task is cancelled.
    unfoldable pub shielded : EndArgs → Exec Exn (Env P) (Unit {0})
    shielded args env = elim (loop.rollback_interrupted args env.world) [
      | none ↦ call (P.rollback_transaction args) env
      | some w ↦ (raised cancelled, record env { world = w })
    ]

    unfoldable pub rollback_active : Option Text → Exec Exn (Env P) (Unit {0})
    unfolding shielded
    rollback_active none env = (ok tt, env)
    rollback_active (some []) env = (ok tt, env)
    rollback_active (some (c ∷ tx)) env =
        shielded (end_args env.connection (c ∷ tx)) (set_transaction none env)

    unfoldable pub rollback : Exec Exn (Env P) (Unit {0})
    unfolding rollback_active
    rollback env = rollback_active env.connection.transaction_id env

    -- The `try` of `__aexit__`, with whether the body of the block raised.
    unfoldable pub end_block : Bool → Exec Exn (Env P) (Unit {0})
    unfolding rollback commit
    end_block true = rollback
    end_block false = commit

    -- `finally: await self.close()`, once the wait before it has ended: an exception of `close` takes
    -- the place of the one before.
    and_close : Result Exn (Unit {0}) → Exec Exn (Opened P) (Unit {0})
    and_close diverged o = (diverged, o)
    and_close (ok _) o = close loop o
    and_close (raised e) o =
        let (c, o') = close loop o in
        elim c [ ok _ ↦ (raised e, o') | raised x ↦ (raised x, o') | diverged ↦ (diverged, o') ]

    -- `__aexit__`
    pub aexit : Bool → Exec Exn (Opened P) (Unit {0})
    unfolding end_block and_close
    aexit raising o = let (r, o') = on_env (end_block raising) o in and_close r o'
