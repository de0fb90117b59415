-- ===== src/Cursor.antt =====
-- `AuroraDataAPICursor` of __init__.py: its buffer, and the pages of a server-side cursor. Logging is not
-- modelled.
pub mod Fetch
pub mod Execute
pub mod Batch
pub mod Report
pub mod Paging
pub mod Frame
use aurora_data_api.Base.{
  ℕ, zero, suc, ◌+◌, ◌/◌, Bool, true, false, not, Option, none, some, List, [], ◌∷◌, ◌&&◌,
  if◌then◌else◌, ltb, max, length, get_elem?, is_nonempty,
}
use aurora_data_api.Base.Int.{ℤ, pos, negsuc}
use aurora_data_api.Base.Text.{Text, codes, contains}
use aurora_data_api.Base.Exec.{Result, Exec, ok, raised, diverged, raise, lift, modify, ◌>>=◌, ◌>>◌}
use aurora_data_api.Value.{Stdlib}
use aurora_data_api.Convert.Columns.{Column, ColumnDescription, build_description}
use aurora_data_api.Errors.Classes.{Exn, new_exn, interface_error, unsupported_result, is_instance}
use aurora_data_api.Platform.{Response, Platform}
use aurora_data_api.Env.{Connection, Row, Rendered, PagingState, Cursor, Env, call}
use aurora_data_api.Connection.{is_database_exception, raise_translated}
use aurora_data_api.Statements.{
  declare_stmt, fetch_stmt, move_stmt, with_sql, size_limit, render_response,
}

-- `len(buffer)`-like reads of an attribute that may be `None`.
abbrev pub items : Option (List Row) → List Row
items none = []
items (some rows) = rows

-- `not self.description`
abbrev pub is_described : Option (List ColumnDescription) → Bool
is_described (some (_ ∷ _)) = true
is_described _ = false

-- `-n`
abbrev pub negated : ℕ → ℤ
negated zero = pos 0
negated (suc n) = negsuc n

abbrev pub is_oversize : Exn → Bool
is_oversize e = contains size_limit e.message

abbrev pub set_buffer : Option (List Row) → Cursor → Cursor
set_buffer rows c = record c { buffer = rows; buffer_idx = 0 }

unfoldable pub set_description : List Column → Cursor → Cursor
set_description columns c = record c { description = some (build_description columns) }

-- `_has_buffered_row`
unfoldable pub has_buffered_row : Cursor → Bool
has_buffered_row c = is_nonempty (items c.buffer) && ltb c.buffer_idx (length (items c.buffer))

-- `column_metadata` of a fetched page, which must not be empty to be used.
abbrev pub describe_page : Option (List Column) → Cursor → Cursor
describe_page (some (column ∷ columns)) c =
    if is_described c.description then c else set_description (column ∷ columns) c
describe_page _ c = c

abbrev pub with_page_size : ℕ → Option PagingState → Cursor → Cursor
with_page_size n none c = c
with_page_size n (some paging) c = record c {
  paging_state = some (record paging { records_per_page = n });
}

abbrev pub set_records_per_page : ℕ → Cursor → Cursor
set_records_per_page n c = with_page_size n c.paging_state c

abbrev pub page_size : Option PagingState → ℕ
page_size none = 0
page_size (some paging) = paging.records_per_page

module _ {P : Platform} where
  abbrev pub with_cursor : (Cursor → Cursor) → Env P → Env P
  with_cursor f env = record env { cursor = f env.cursor }

  -- `_pop_buffered_row`
  unfoldable pub pop_buffered_row : Exec Exn (Env P) (Option Row)
  unfolding has_buffered_row
  pop_buffered_row env =
      if has_buffered_row env.cursor
      then (
        ok (get_elem? (items env.cursor.buffer) env.cursor.buffer_idx),
        with_cursor (λ c. record c { buffer_idx = c.buffer_idx + 1 }) env,
      )
      else (ok none, env)

  unfoldable pub scroll_in : Text → ℤ → Option PagingState → Exec Exn (Env P) (Unit {0})
  scroll_in mode value none =
      raise (new_exn interface_error (codes "Cursor scroll attempted but pagination is not active"))
  scroll_in mode value (some paging) =
      call (
        P.execute_statement
          (with_sql (move_stmt mode value paging.pg_cursor_name) paging.execute_statement_args))
      >> modify (with_cursor (set_buffer none))

  unfoldable pub scroll : ℤ → Text → Exec Exn (Env P) (Unit {0})
  unfolding scroll_in
  scroll value mode env = scroll_in mode value env.cursor.paging_state env

  module _ (L : Stdlib) where
    -- What follows a successful FETCH.
    unfoldable pub store_page : Response → Exec Exn (Env P) (Unit {0})
    unfolding set_description
    store_page page env =
        let env' = with_cursor (describe_page page.column_metadata) env in
        (lift (render_response L env'.cursor.description page) >>= λ rendered.
        modify (with_cursor (set_buffer (some (items rendered.records)))))
          env'

    -- The two `except` clauses of the loop; `again` is its next round.
    unfoldable pub fetch_failed :
        Exec Exn (Env P) (Unit {0}) → ℕ → Exn → Exec Exn (Env P) (Unit {0})
    unfolding scroll
    fetch_failed again rpp e =
        if is_instance e unsupported_result
        then (if is_oversize e && ltb 1 rpp
            then scroll (negated rpp) (codes "relative")
              >> modify (with_cursor (set_records_per_page (max 1 (rpp / 2))))
              >> again
            else raise e)
        else if is_database_exception e
        then raise_translated e
        else raise e

    abbrev pub fetch_page : PagingState → Exec Exn (Env P) Response
    fetch_page paging = call (
        P.execute_statement (
          with_sql (fetch_stmt paging.records_per_page paging.pg_cursor_name)
            paging.execute_statement_args))

    unfoldable pub after_fetch :
        Exec Exn (Env P) (Unit {0}) → ℕ → Result Exn Response → Exec Exn (Env P) (Unit {0})
    unfolding store_page fetch_failed
    after_fetch again rpp (ok page) env = store_page page env
    after_fetch again rpp (raised e) env = fetch_failed again rpp e env
    after_fetch again rpp diverged env = (diverged, env)

    unfoldable pub fetch_in :
        Exec Exn (Env P) (Unit {0}) → Option PagingState → Exec Exn (Env P) (Unit {0})
    unfolding after_fetch
    fetch_in again none env = (
      raised (new_exn interface_error (codes "Paging state missing while fetching next page")),
      env,
    )
    fetch_in again (some paging) env =
        let (r, env') = fetch_page paging env in after_fetch again paging.records_per_page r env'

    -- The loop of `_fetch_next_page_into_buffer`, on fuel.
    unfoldable pub fetch_loop : ℕ → Exec Exn (Env P) (Unit {0})
    unfolding fetch_in
    fetch_loop zero env = (diverged, env)
    fetch_loop (suc fuel) env = fetch_in (λ env'. fetch_loop fuel env') env.cursor.paging_state env

    -- Each round but the last halves a page size above one, so the page size is fuel enough.
    unfoldable pub fetch_next_page : Exec Exn (Env P) (Unit {0})
    unfolding fetch_loop
    fetch_next_page env = fetch_loop (suc (page_size env.cursor.paging_state)) env
