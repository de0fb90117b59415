-- ===== src/Async/Cursor.antt =====
-- `AsyncAuroraDataAPICursor` of async_driver.py: its buffer, and the pages of a server-side cursor. Its
-- attributes are those of the synchronous cursor without `_iterator`. Logging is not modelled.
pub mod Fetch
pub mod Execute
pub mod Batch
pub mod Report
pub mod Same
use aurora_data_api.Base.{
  ℕ, zero, suc, ◌+◌, ◌/◌, Bool, Option, none, some, List, ◌∷◌, ◌++◌, ◌&&◌, if◌then◌else◌, ltb, max,
  length, get_elem?, is_nonempty,
}
use aurora_data_api.Base.Int.{ℤ}
use aurora_data_api.Base.Text.{Text, codes}
use aurora_data_api.Base.Decimal.{show_nat}
use aurora_data_api.Base.Exec.{Result, Exec, ok, raised, diverged, raise, lift, modify, ◌>>=◌, ◌>>◌}
use aurora_data_api.Value.{Stdlib}
use aurora_data_api.Convert.Columns.{Column, build_description}
use aurora_data_api.Errors.Classes.{Exn, new_exn, interface_error, unsupported_result, is_instance}
use aurora_data_api.Platform.{Response, Platform}
use aurora_data_api.Env.{Row, PagingState, Cursor, Env, call}
use aurora_data_api.Connection.{is_database_exception, raise_translated}
use aurora_data_api.Statements.{move_stmt, with_sql, render_response}
use aurora_data_api.Cursor.{
  items, is_described, negated, is_oversize, set_buffer, set_records_per_page, page_size,
  with_cursor,
}

-- `f'FETCH {rpp} FROM {name}'`
unfoldable pub fetch_stmt : ℕ → Text → Text
fetch_stmt n name = codes "FETCH " ++ (show_nat n ++ (codes " FROM " ++ name))

-- `_set_description`
set_description : List Column → Cursor → Cursor
set_description columns c = record c { description = some (build_description columns) }

-- `_has_buffered_row`
unfoldable pub has_buffered_row : Cursor → Bool
has_buffered_row c = is_nonempty (items c.buffer) && ltb c.buffer_idx (length (items c.buffer))

-- `page.get("columnMetadata") and not self.description`
describe_page : Option (List Column) → Cursor → Cursor
unfolding set_description
describe_page (some (column ∷ columns)) c =
    if is_described c.description then c else set_description (column ∷ columns) c
describe_page _ c = c

module _ {P : Platform} where
  -- `_pop_buffered_row`
  unfoldable pub pop_buffered_row : Exec Exn (Env P) (Option Row)
  unfolding has_buffered_row
  pop_buffered_row env =
      if has_buffered_row env.cursor
      then (
        ok (get_elem? (items env.cursor.buffer) env.cursor.buffer_idx),
        with_cursor (λ c. record c { buffer_idx = c.buffer_idx + 1 }) env,
      )
      else (ok none, env)

  scroll_in : Text → ℤ → Option PagingState → Exec Exn (Env P) (Unit {0})
  scroll_in mode value none =
      raise (new_exn interface_error (codes "Cursor scroll attempted but pagination is not active"))
  scroll_in mode value (some paging) =
      call (
        P.execute_statement
          (with_sql (move_stmt mode value paging.pg_cursor_name) paging.execute_statement_args))
      >> modify (with_cursor (set_buffer none))

  pub scroll : ℤ → Text → Exec Exn (Env P) (Unit {0})
  unfolding scroll_in
  scroll value mode env = scroll_in mode value env.cursor.paging_state env

  module _ (L : Stdlib) where
    -- What follows a successful FETCH.
    store_page : Response → Exec Exn (Env P) (Unit {0})
    unfolding describe_page
    store_page page env =
        let env' = with_cursor (describe_page page.column_metadata) env in
        (lift (render_response L env'.cursor.description page) >>= λ rendered.
        modify (with_cursor (set_buffer (some (items rendered.records)))))
          env'

    -- The two `except` clauses of the loop; `again` is its next round.
    fetch_failed : Exec Exn (Env P) (Unit {0}) → ℕ → Exn → Exec Exn (Env P) (Unit {0})
    unfolding scroll
    fetch_failed again rpp e =
        if is_instance e unsupported_result
        then (if is_oversize e && ltb 1 rpp
            then scroll (negated rpp) (codes "relative")
              >> modify (with_cursor (set_records_per_page (max 1 (rpp / 2))))
              >> again
            else raise e)
        else if is_database_exception e
        then raise_translated e
        else raise e

    after_fetch :
        Exec Exn (Env P) (Unit {0}) → ℕ → Result Exn Response → Exec Exn (Env P) (Unit {0})
    unfolding store_page fetch_failed
    after_fetch again rpp (ok page) env = store_page page env
    after_fetch again rpp (raised e) env = fetch_failed again rpp e env
    after_fetch again rpp diverged env = (diverged, env)

    abbrev fetch_page : PagingState → Exec Exn (Env P) Response
    fetch_page paging = call (
        P.execute_statement (
          with_sql (fetch_stmt paging.records_per_page paging.pg_cursor_name)
            paging.execute_statement_args))

    fetch_in : Exec Exn (Env P) (Unit {0}) → Option PagingState → Exec Exn (Env P) (Unit {0})
    unfolding after_fetch
    fetch_in again none env = (
      raised (new_exn interface_error (codes "Paging state missing while fetching next page")),
      env,
    )
    fetch_in again (some paging) env =
        let (r, env') = fetch_page paging env in after_fetch again paging.records_per_page r env'

    -- The loop of `_fetch_next_page_into_buffer`, on fuel.
    fetch_loop : ℕ → Exec Exn (Env P) (Unit {0})
    unfolding fetch_in
    fetch_loop zero env = (diverged, env)
    fetch_loop (suc fuel) env = fetch_in (λ env'. fetch_loop fuel env') env.cursor.paging_state env

    -- Each round but the last halves a page size above one, so the page size is fuel enough.
    pub fetch_next_page : Exec Exn (Env P) (Unit {0})
    unfolding fetch_loop
    fetch_next_page env = fetch_loop (suc (page_size env.cursor.paging_state)) env
