-- ===== src/Cursor/Fetch.antt =====
-- `AuroraDataAPICursor` of __init__.py: the methods that hand rows out.
pub mod Rows
pub mod Stream
pub mod Frame
pub mod Server
pub mod Iteration
use aurora_data_api.Base.{
  Bool, true, false, ℕ, zero, suc, ◌+◌, Option, none, some, List, [], ◌∷◌, ◌++◌, if◌then◌else◌,
}
use aurora_data_api.Base.Exec.{Result, Exec, ok, raised, diverged, ◌>>=◌, ◌>>◌}
use aurora_data_api.Value.{Stdlib}
use aurora_data_api.Errors.Classes.{Exn}
use aurora_data_api.Platform.{Platform}
use aurora_data_api.Env.{Row, PagingState, Env}
use aurora_data_api.Cursor.{pop_buffered_row, has_buffered_row, fetch_next_page}

-- Whether a generator has finished after a step with this result.
abbrev finishes : Result Exn (Option Row) → Bool
finishes (ok (some row)) = false
finishes _ = true

module _ {P : Platform} (L : Stdlib) where
  unfoldable pub fetchone_unbuffered : Option PagingState → Exec Exn (Env P) (Option Row)
  fetchone_unbuffered none env = (ok none, env)
  fetchone_unbuffered (some paging) env = (fetch_next_page L >> pop_buffered_row) env

  unfoldable pub after_pop : Option Row → Exec Exn (Env P) (Option Row)
  unfolding fetchone_unbuffered
  after_pop (some row) env = (ok (some row), env)
  after_pop none env = fetchone_unbuffered env.cursor.paging_state env

  unfoldable pub fetchone : Exec Exn (Env P) (Option Row)
  unfolding after_pop
  fetchone = pop_buffered_row >>= after_pop

  -- The loop of `fetchmany`, over the rows that are still wanted.
  unfoldable pub fetch_rows : ℕ → List Row → Exec Exn (Env P) (List Row)
  fetch_rows zero results env = (ok results, env)
  fetch_rows (suc size) results env =
      let (r, env') = fetchone env in
      elim r [
        | ok (some row) ↦ fetch_rows size (results ++ (row ∷ [])) env'
        | ok none ↦ (ok results, env')
        | raised e ↦ (raised e, env')
        | diverged ↦ (diverged, env')
      ]

  unfoldable pub fetchmany : Option ℕ → Exec Exn (Env P) (List Row)
  unfolding fetch_rows
  fetchmany none env = fetch_rows env.cursor.arraysize [] env
  fetchmany (some size) env = fetch_rows size [] env

  -- The loop of `fetchall`, on fuel.
  unfoldable pub fetch_rest : ℕ → List Row → Exec Exn (Env P) (List Row)
  fetch_rest zero rows env = (diverged, env)
  fetch_rest (suc fuel) rows env =
      let (r, env') = fetchone env in
      elim r [
        | ok (some row) ↦ fetch_rest fuel (rows ++ (row ∷ [])) env'
        | ok none ↦ (ok rows, env')
        | raised e ↦ (raised e, env')
        | diverged ↦ (diverged, env')
      ]

  unfoldable pub fetchall : ℕ → Exec Exn (Env P) (List Row)
  unfolding fetch_rest
  fetchall fuel = fetch_rest fuel []

  -- `__iter__` from one `yield` to the next, or to its end. After a page has been fetched the loop goes
  -- round once more, and finds a row of the page.
  iter_unbuffered : Option PagingState → Exec Exn (Env P) (Option Row)
  iter_unbuffered none env = (ok none, env)
  iter_unbuffered (some paging) env =
      (fetch_next_page L >>= λ _.
      λ env'. if has_buffered_row env'.cursor then pop_buffered_row env' else (ok none, env'))
        env

  iter_after_pop : Option Row → Exec Exn (Env P) (Option Row)
  unfolding iter_unbuffered
  iter_after_pop (some row) env = (ok (some row), env)
  iter_after_pop none env = iter_unbuffered env.cursor.paging_state env

  -- A step of the generator of `__iter__`, while it has not finished.
  unfoldable pub iter_next : Exec Exn (Env P) (Option Row)
  unfolding iter_after_pop
  iter_next = pop_buffered_row >>= iter_after_pop

  -- Any step of it: whether it has finished by the end or by an exception stands in the state, and
  -- `none` is StopIteration.
  pub generator_next : Exec Exn (Bool × Env P) (Option Row)
  unfolding iter_next
  generator_next (true, env) = (ok none, (true, env))
  generator_next (false, env) = let (r, env') = iter_next env in (r, (finishes r, env'))
