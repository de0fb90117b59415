-- ===== src/Async/Adapted.antt =====
-- `SyncAdaptedConnection` and `SyncAdaptedCursor` of async_driver.py: the synchronous faces that
-- SQLAlchemy calls. `await_only` runs a coroutine to its end if it is called inside a greenlet of
-- SQLAlchemy, and raises `MissingGreenlet` anywhere else.
pub mod Drained
use aurora_data_api.Base.{
  ℕ, zero, suc, Bool, Option, none, some, List, [], ◌∷◌, ◌++◌, take, drop, if◌then◌else◌,
}
use aurora_data_api.Base.Int.{ℤ}
use aurora_data_api.Base.Text.{Text, codes}
use aurora_data_api.Base.Exec.{Result, Exec, ok, raised, diverged, ◌>>=◌, ◌>>◌}
use aurora_data_api.Value.{Stdlib}
use aurora_data_api.Convert.{Converted}
use aurora_data_api.Convert.Columns.{ColumnDescription}
use aurora_data_api.Convert.Params.{Parameters}
use aurora_data_api.Errors.Classes.{Exn, new_exn, other_exception}
use aurora_data_api.Platform.{Platform}
use aurora_data_api.Env.{Row, Env}
use aurora_data_api.Async.Lifecycle.{Loop, Opened, close as close_async_connection}
use aurora_data_api.Async.Connection.{
  start_transaction as start_transaction_async, commit as commit_async, rollback as rollback_async,
}
use aurora_data_api.Async.Cursor.{scroll as scroll_async}
use aurora_data_api.Async.Cursor.Fetch.{
  fetchone as fetchone_async, fetchmany as fetchmany_async, fetchall as fetchall_async,
}
use aurora_data_api.Async.Cursor.Execute.{execute as execute_async}
use aurora_data_api.Async.Cursor.Batch.{executemany as executemany_async}
use aurora_data_api.Async.Cursor.Report.{
  rowcount as rowcount_async, lastrowid as lastrowid_async, close as close_async, open_cursor,
}

-- The attributes of a `SyncAdaptedCursor`, its connection and asynchronous cursor in `env`, and whether
-- the caller runs in a greenlet.
pub record Adapted (P : Platform) : Type 0 where
  pub env : Env P
  pub arraysize : ℕ
  pub description : Option (List ColumnDescription)
  pub drained_rows : Option (List Row)
  pub in_greenlet : Bool

abbrev pub missing_greenlet : Exn
missing_greenlet =
    new_exn (other_exception (codes "MissingGreenlet"))
      (codes "greenlet_spawn has not been called; can't call await_only() here")

module _ {P : Platform} where
  -- A coroutine of the cursor, awaited.
  abbrev pub awaited : {A : Type 0} → Exec Exn (Env P) A → Exec Exn (Adapted P) A
  awaited m a = let (r, env) = m a.env in (r, record a { env = env })

  -- `await_only(m)`
  unfoldable pub await_only : {A : Type 0} → Exec Exn (Env P) A → Exec Exn (Adapted P) A
  await_only m a = if a.in_greenlet then awaited m a else (raised missing_greenlet, a)

  abbrev with_description :
      (Adapted P → Option (List ColumnDescription)) → Exec Exn (Adapted P) (Unit {0})
  with_description f a = (ok tt, record a { description = f a; drained_rows = none })

  -- `SyncAdaptedConnection`
  pub start_transaction : Exec Exn (Adapted P) Text
  unfolding await_only
  start_transaction = await_only start_transaction_async

  pub commit : Exec Exn (Adapted P) (Unit {0})
  unfolding await_only
  commit = await_only commit_async

  pub rollback : Loop P → Exec Exn (Adapted P) (Unit {0})
  unfolding await_only
  rollback loop = await_only (rollback_async loop)

  -- `close` of the connection, with whether it is called in a greenlet.
  pub close_connection : Loop P → Bool → Exec Exn (Opened P) (Unit {0})
  close_connection loop in_greenlet o =
      if in_greenlet then close_async_connection loop o else (raised missing_greenlet, o)

  pub scroll : ℤ → Text → Exec Exn (Adapted P) (Unit {0})
  unfolding await_only
  scroll value mode = await_only (scroll_async value mode)

  pub close : Stdlib → Exec Exn (Adapted P) (Unit {0})
  close L a = awaited (close_async L) (record a { drained_rows = none })

  pub rowcount : Adapted P → ℤ
  rowcount a = rowcount_async a.env.cursor

  pub lastrowid : Stdlib → Adapted P → Result Exn (Option Converted)
  lastrowid L a = lastrowid_async L a.env.cursor

module _ {P : Platform} (L : Stdlib) where
  -- `cursor` of the connection: the new cursor takes the place of the one before.
  pub cursor : Exec Exn (Adapted P) (Unit {0})
  unfolding await_only
  cursor = await_only (open_cursor L) >>= λ _. λ a. (
    ok tt,
    record a {
      arraysize = a.env.cursor.arraysize;
      description = a.env.cursor.description;
      drained_rows = none;
    },
  )

  unfoldable pub execute : Text → Parameters → Exec Exn (Adapted P) (Unit {0})
  unfolding await_only
  execute operation parameters =
      await_only (execute_async L operation parameters)
      >> with_description (λ a. a.env.cursor.description)

  pub executemany : Text → List Parameters → Exec Exn (Adapted P) (Unit {0})
  unfolding await_only
  executemany operation seq_of_parameters =
      await_only (executemany_async L operation seq_of_parameters) >> with_description (λ a. none)

  -- The paths of `fetchone`: no drained rows, none left, and a row to pop.
  fetchone_from : Option (List Row) → Exec Exn (Adapted P) (Option Row)
  unfolding await_only
  fetchone_from none a = await_only (fetchone_async L) a
  fetchone_from (some []) a = (ok none, a)
  fetchone_from (some (row ∷ rows)) a = (ok (some row), record a { drained_rows = some rows })

  pub fetchone : Exec Exn (Adapted P) (Option Row)
  unfolding fetchone_from
  fetchone a = fetchone_from a.drained_rows a

  fetchmany_from : ℕ → Option (List Row) → Exec Exn (Adapted P) (List Row)
  unfolding await_only
  fetchmany_from size none a = await_only (fetchmany_async L (some size)) a
  fetchmany_from size (some rows) a =
      (ok (take size rows), record a { drained_rows = some (drop size rows) })

  pub fetchmany : Option ℕ → Exec Exn (Adapted P) (List Row)
  unfolding fetchmany_from
  fetchmany none a = fetchmany_from a.arraysize a.drained_rows a
  fetchmany (some size) a = fetchmany_from size a.drained_rows a

  fetchall_from : ℕ → Option (List Row) → Exec Exn (Adapted P) (List Row)
  unfolding await_only
  fetchall_from fuel none a = await_only (fetchall_async L fuel) a
  fetchall_from fuel (some rows) a = (ok rows, record a { drained_rows = some [] })

  pub fetchall : ℕ → Exec Exn (Adapted P) (List Row)
  unfolding fetchall_from
  fetchall fuel a = fetchall_from fuel a.drained_rows a

  -- The loop of `_async_soft_close`, on fuel.
  drain : ℕ → List Row → Exec Exn (Env P) (List Row)
  drain zero rows env = (diverged, env)
  drain (suc fuel) rows env =
      let (r, env') = fetchone_async L env in
      elim r [
        | ok (some row) ↦ drain fuel (rows ++ (row ∷ [])) env'
        | ok none ↦ (ok rows, env')
        | raised e ↦ (raised e, env')
        | diverged ↦ (diverged, env')
      ]

  -- `_async_soft_close`
  pub async_soft_close : ℕ → Exec Exn (Adapted P) (Unit {0})
  unfolding drain
  async_soft_close fuel = awaited (drain fuel []) >>= λ rows.
      λ a. awaited (close_async L) (record a { drained_rows = some rows })
