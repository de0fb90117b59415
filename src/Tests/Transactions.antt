-- ===== src/Tests/Transactions.antt =====
-- A connection with a client that answers, and with one that is resuming.
use aurora_data_api.Base.{
  ℕ, ◌≡◌, refl, Option, none, some, true, ◌↔◌, ◌⊎◌, ◌≢◌, false, Bool, sym, ap,
}
use aurora_data_api.Base.Text.{Text, codes}
use aurora_data_api.Base.Exec.{Result, ok, raised}
use aurora_data_api.Errors.Classes.{Exn, exception, is_instance}
use aurora_data_api.Retry.{retry_resuming}
use aurora_data_api.Env.{Env}
use aurora_data_api.Connection.{
  start_transaction, start_transaction_once, commit, exit_connection, prepare_execute_args,
  set_transaction, with_transaction, committed_status, end_args,
}
use aurora_data_api.Connection.Laws.{start_transaction-args, commit_outcome, exit_connection-args}
use aurora_data_api.Connection.Resuming.{IsWellMade, start_transaction_runs_once}
use aurora_data_api.Tests.Clients.{Answering, Asleep, fresh, still_resuming}
use aurora_data_api.Tests.Errors.{nothing-IsMade}

begun : Env Answering
unfolding fresh
begun = set_transaction (some (codes "tx1")) (fresh Answering 1)

start_transaction-args_example :
    (prepare_execute_args begun.connection (codes "SELECT 1")).transaction_id ≡ some (codes "tx1")
unfolding start_transaction retry_resuming fresh begun
start_transaction-args_example =
    start_transaction-args (fresh Answering 0) b't' (codes "x1") (codes "SELECT 1") begun refl

commit_outcome_example :
    ((s : Option Text) × ((Answering.commit_transaction
          (end_args begun.connection (codes "tx1"))
          1).0
        ≡ ok s)
      × ((commit begun).1.connection ≡ with_transaction none begun.connection)
      × ((commit begun).0 ≡ ok tt ↔ s ≡ some committed_status))
    ⊎ (((s : Option Text)
          → (Answering.commit_transaction (end_args begun.connection (codes "tx1")) 1).0 ≢ ok s)
        × ((commit begun).1.connection ≡ begun.connection)
        × ((commit begun).0 ≢ ok tt))
unfolding fresh begun
commit_outcome_example = commit_outcome begun b't' (codes "x1") refl

ended : Env Answering
unfolding fresh
ended = fresh Answering 2

exit_connection-args_example :
    (prepare_execute_args ended.connection (codes "SELECT 1")).transaction_id ≡ none
unfolding exit_connection fresh begun ended committed_status
exit_connection-args_example = exit_connection-args false begun (codes "SELECT 1") ended refl

fresh_made : (w : ℕ) → IsWellMade (fresh Asleep w).factories
unfolding fresh
fresh_made w = record { mysql = nothing-IsMade _ _; postgresql = nothing-IsMade _ _ }

raises_exception : Result Exn (Option Text) → Bool
raises_exception (raised x) = is_instance x exception
raises_exception _ = false

resuming_is_exception :
    (x : Exn)
    → ◌≡◌ {A = Result Exn (Option Text)} (raised still_resuming) (raised x)
    → is_instance x exception ≡ true
unfolding raises_exception is_instance
resuming_is_exception x e = sym (ap raises_exception e)

start_transaction_runs_once_example :
    start_transaction (fresh Asleep 0) ≡ start_transaction_once (fresh Asleep 0)
start_transaction_runs_once_example =
    start_transaction_runs_once (fresh Asleep 0) (fresh_made 0) resuming_is_exception
