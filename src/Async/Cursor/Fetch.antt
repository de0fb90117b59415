-- ===== src/Async/Cursor/Fetch.antt =====
-- `__anext__`, `fetchone`, `fetchmany` and `fetchall` of `AsyncAuroraDataAPICursor` in async_driver.py.
use aurora_data_api.Base.{ℕ, zero, suc, Option, none, some, List, [], ◌∷◌, ◌++◌}
use aurora_data_api.Base.Exec.{Exec, ok, raised, diverged, ◌>>=◌, ◌>>◌}
use aurora_data_api.Value.{Stdlib}
use aurora_data_api.Errors.Classes.{Exn}
use aurora_data_api.Platform.{Platform}
use aurora_data_api.Env.{Row, PagingState, Env}
use aurora_data_api.Async.Cursor.{pop_buffered_row, fetch_next_page}

module _ {P : Platform} (L : Stdlib) where
  unfoldable pub after_pop : Option Row → Exec Exn (Env P) (Option Row)
  after_pop (some row) env = (ok (some row), env)
  after_pop none env = (fetch_next_page L >> pop_buffered_row) env

  -- The two paths of `__anext__`.
  unfoldable pub next_in : Option PagingState → Exec Exn (Env P) (Option Row)
  unfolding after_pop
  next_in none = pop_buffered_row
  next_in (some paging) = pop_buffered_row >>= after_pop

  -- `__anext__`; `none` is `StopAsyncIteration`.
  unfoldable pub anext : Exec Exn (Env P) (Option Row)
  unfolding next_in
  anext env = next_in env.cursor.paging_state env

  -- `fetchone` returns `None` for `StopAsyncIteration`.
  unfoldable pub fetchone : Exec Exn (Env P) (Option Row)
  unfolding anext
  fetchone = anext

  -- The loop of `fetchmany`, over the rows that are still wanted.
  unfoldable pub fetch_rows : ℕ → List Row → Exec Exn (Env P) (List Row)
  fetch_rows zero out env = (ok out, env)
  fetch_rows (suc size) out env =
      let (r, env') = fetchone env in
      elim r [
        | ok (some row) ↦ fetch_rows size (out ++ (row ∷ [])) env'
        | ok none ↦ (ok out, env')
        | raised e ↦ (raised e, env')
        | diverged ↦ (diverged, env')
      ]

  unfoldable pub fetchmany : Option ℕ → Exec Exn (Env P) (List Row)
  unfolding fetch_rows
  fetchmany none env = fetch_rows env.cursor.arraysize [] env
  fetchmany (some size) env = fetch_rows size [] env

  -- The loop of `fetchall`, on fuel.
  unfoldable pub fetch_rest : ℕ → List Row → Exec Exn (Env P) (List Row)
  fetch_rest zero rows env = (diverged, env)
  fetch_rest (suc fuel) rows env =
      let (r, env') = fetchone env in
      elim r [
        | ok (some row) ↦ fetch_rest fuel (rows ++ (row ∷ [])) env'
        | ok none ↦ (ok rows, env')
        | raised e ↦ (raised e, env')
        | diverged ↦ (diverged, env')
      ]

  unfoldable pub fetchall : ℕ → Exec Exn (Env P) (List Row)
  unfolding fetch_rest
  fetchall fuel = fetch_rest fuel []
