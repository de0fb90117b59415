-- ===== src/Connection.antt =====
-- `AuroraDataAPIClient` of __init__.py: transactions and the arguments of a statement.
pub mod Laws
pub mod Resuming
use aurora_data_api.Base.{Bool, true, false, Option, none, some, [], ◌∷◌, ◌||◌, if◌then◌else◌}
use aurora_data_api.Base.Text.{Text, codes, text_eq}
use aurora_data_api.Base.Exec.{Exec, ok, raised, pure, raise, try_except, ◌>>=◌, ◌>>◌}
use aurora_data_api.Errors.Classes.{
  Exn, new_exn, database_error_from, database_error, key_error, exception, bad_request,
  database_error_exception, is_instance,
}
use aurora_data_api.Errors.Translate.{translate_database_error}
use aurora_data_api.Retry.{retry_resuming}
use aurora_data_api.Platform.{ExecuteArgs, BeginArgs, EndArgs, Platform}
use aurora_data_api.Env.{Connection, Env, call, sleeping}

-- The truth value of a string that may be `None`.
abbrev pub is_set : Option Text → Bool
is_set (some (_ ∷ _)) = true
is_set _ = false

-- The exceptions that `translate_database_error` is for.
abbrev pub is_database_exception : Exn → Bool
is_database_exception e = is_instance e bad_request || is_instance e database_error_exception

-- `_prepare_execute_args`
unfoldable pub prepare_execute_args : Connection → Text → ExecuteArgs
prepare_execute_args c operation = record {
  database = c.dbname;
  resource_arn = c.aurora_cluster_arn;
  secret_arn = c.secret_arn;
  sql = operation;
  transaction_id = if is_set c.transaction_id then c.transaction_id else none;
  include_result_metadata = false;
  continue_after_timeout = none;
  parameters = none;
}

abbrev pub begin_args : Connection → BeginArgs
begin_args c = record {
  database = c.dbname;
  resource_arn = c.aurora_cluster_arn;
  secret_arn = c.secret_arn;
}

abbrev pub end_args : Connection → Text → EndArgs
end_args c tx = record {
  resource_arn = c.aurora_cluster_arn;
  secret_arn = c.secret_arn;
  transaction_id = tx;
}

abbrev pub with_transaction : Option Text → Connection → Connection
with_transaction tx c = record c { transaction_id = tx }

unfoldable pub committed_status : Text
committed_status = codes "Transaction Committed"

module _ {P : Platform} where
  abbrev pub set_transaction : Option Text → Env P → Env P
  set_transaction tx env = record env { connection = with_transaction tx env.connection }

  -- `raise translate_database_error(e)`
  unfoldable pub raise_translated : {A : Type 0} → Exn → Exec Exn (Env P) A
  raise_translated e env =
      let (e', f) = translate_database_error e env.factories in
      (raised e', record env { factories = f })

  -- The two `except` clauses of `start_transaction`.
  unfoldable pub begin_failed : {A : Type 0} → Exn → Exec Exn (Env P) A
  unfolding raise_translated
  begin_failed e =
      if is_database_exception e
      then raise_translated e
      else if is_instance e exception
      then raise (database_error_from e)
      else raise e

  abbrev pub keep_transaction : Option Text → Exec Exn (Env P) Text
  keep_transaction none env = (raised (new_exn key_error (codes "'transactionId'")), env)
  keep_transaction (some tx) env = (ok tx, set_transaction (some tx) env)

  -- `start_transaction` without its decorator.
  unfoldable pub begin_or_current : Option Text → Exec Exn (Env P) Text
  unfolding begin_failed
  begin_or_current (some tx) env = (ok tx, env)
  begin_or_current none env =
      (try_except (call (P.begin_transaction (begin_args env.connection))) begin_failed
          >>= keep_transaction)
        env

  unfoldable pub start_transaction_once : Exec Exn (Env P) Text
  unfolding begin_or_current
  start_transaction_once env = begin_or_current env.connection.transaction_id env

  unfoldable pub start_transaction : Exec Exn (Env P) Text
  unfolding start_transaction_once
  start_transaction = retry_resuming sleeping start_transaction_once

  committed : Option Text → Exec Exn (Env P) (Unit {0})
  committed none = raise (new_exn key_error (codes "'transactionStatus'"))
  committed (some status) =
      if text_eq status committed_status
      then pure tt
      else raise (new_exn database_error (codes "Error while committing transaction"))

  commit_active : Option Text → Exec Exn (Env P) (Unit {0})
  unfolding committed
  commit_active none env = (ok tt, env)
  commit_active (some []) env = (ok tt, env)
  commit_active (some (c ∷ tx)) env =
      (call (P.commit_transaction (end_args env.connection (c ∷ tx))) >>= λ status.
      λ env'. committed status (set_transaction none env'))
        env

  pub commit : Exec Exn (Env P) (Unit {0})
  unfolding commit_active
  commit env = commit_active env.connection.transaction_id env

  rollback_active : Option Text → Exec Exn (Env P) (Unit {0})
  rollback_active none env = (ok tt, env)
  rollback_active (some []) env = (ok tt, env)
  rollback_active (some (c ∷ tx)) env =
      (call (P.rollback_transaction (end_args env.connection (c ∷ tx))) >>= λ _.
      λ env'. (ok tt, set_transaction none env'))
        env

  pub rollback : Exec Exn (Env P) (Unit {0})
  unfolding rollback_active
  rollback env = rollback_active env.connection.transaction_id env

  -- `__exit__`, with whether the body of the `with` statement raised.
  unfoldable pub exit_connection : Bool → Exec Exn (Env P) (Unit {0})
  unfolding rollback commit
  exit_connection true = rollback
  exit_connection false = commit
