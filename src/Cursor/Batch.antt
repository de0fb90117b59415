-- ===== src/Cursor/Batch.antt =====
-- `_page_input` and `executemany` of `AuroraDataAPICursor` in __init__.py.
pub mod Laws
pub mod Sent
use aurora_data_api.Base.{
  Option, some, ℕ, zero, suc, List, [], ◌∷◌, length, take, drop, if◌then◌else◌,
}
use aurora_data_api.Base.Text.{Text}
use aurora_data_api.Cursor.Execute.{or_arraysize}
use aurora_data_api.Base.Exec.{
  Result, Exec, ok, raised, diverged, lift, raise, try_except, ◌>>=◌, ◌>>◌,
}
use aurora_data_api.Value.{Stdlib}
use aurora_data_api.Convert.Params.{Param, Parameters, format_parameters}
use aurora_data_api.Errors.Classes.{Exn, bad_request, is_instance}
use aurora_data_api.Retry.{retry_resuming}
use aurora_data_api.Platform.{BatchArgs, Platform}
use aurora_data_api.Env.{Connection, Env, call, sleeping}
use aurora_data_api.Connection.{prepare_execute_args, raise_translated}

-- The batches that `iter(lambda: list(islice(iterable, page_size)), [])` makes, on fuel: each takes at
-- least one item, if `page_size` is not zero.
pub batches : {A : Type 0} → ℕ → ℕ → List A → List (List A)
batches zero page_size items = []
batches (suc fuel) page_size items = elim (take page_size items) [
  | [] ↦ []
  | x ∷ batch ↦ (x ∷ batch) ∷ batches fuel page_size (drop page_size items)
]

-- `_page_input`, of the items of the iterable: `page_size or self.arraysize`.
pub page_input : {A : Type 0} → List A → Option ℕ → ℕ → List (List A)
unfolding batches
page_input items page_size arraysize =
    batches (length items) (or_arraysize page_size arraysize) items

unfoldable pub batch_args : Connection → Text → List (List Param) → BatchArgs
batch_args connection operation parameter_sets =
    let args = prepare_execute_args connection operation in
    record {
      database = args.database;
      resource_arn = args.resource_arn;
      secret_arn = args.secret_arn;
      sql = args.sql;
      transaction_id = args.transaction_id;
      parameter_sets = parameter_sets;
    }

module _ (L : Stdlib) where
  -- `[format_parameters(p) for p in batch]`
  unfoldable pub format_batch : List Parameters → Result Exn (List (List Param))
  format_batch [] = ok []
  format_batch (p ∷ batch) = elim (format_parameters L p) [
    | raised e ↦ raised e
    | diverged ↦ diverged
    | ok params ↦ elim (format_batch batch) [
      | raised e ↦ raised e
      | diverged ↦ diverged
      | ok rest ↦ ok (params ∷ rest)
    ]
  ]

module _ {P : Platform} (L : Stdlib) where
  unfoldable pub batch_failed : Exn → Exec Exn (Env P) (Unit {0})
  batch_failed e = if is_instance e bad_request then raise_translated e else raise e

  unfoldable pub send_batch : Text → List Parameters → Exec Exn (Env P) (Unit {0})
  unfolding batch_args format_batch batch_failed
  send_batch operation batch env =
      (lift (format_batch L batch) >>= λ sets.
      try_except (call (P.batch_execute_statement (batch_args env.connection operation sets)))
        batch_failed)
        env

  unfoldable pub send_batches : Text → List (List Parameters) → Exec Exn (Env P) (Unit {0})
  unfolding send_batch
  send_batches operation [] env = (ok tt, env)
  send_batches operation (batch ∷ rest) env =
      (send_batch operation batch >> λ env'. send_batches operation rest env') env

  -- `executemany` without its decorator, of a sequence that can be read again.
  pub executemany_once : Text → List Parameters → Exec Exn (Env P) (Unit {0})
  unfolding send_batches page_input
  executemany_once operation seq_of_parameters env =
      send_batches operation
        (page_input seq_of_parameters (some env.cursor.arraysize) env.cursor.arraysize) env

  pub executemany : Text → List Parameters → Exec Exn (Env P) (Unit {0})
  unfolding executemany_once
  executemany operation seq_of_parameters =
      retry_resuming sleeping (executemany_once operation seq_of_parameters)
