-- ===== src/Async/Cursor/Same/Pages.antt =====
-- Where the pages of the asynchronous cursor of async_driver.py are loaded as those of the synchronous one
-- of __init__.py.
use mathlib.Core.Path.{fun_ext}
use aurora_data_api.Base.Int.{ℤ}
use aurora_data_api.Base.{
  ℕ, zero, suc, ◌≡◌, refl, ap, ◌∙◌, if◌then◌else◌, ◌&&◌, ltb, max, ◌/◌, Option, none, some, List,
  [], ◌∷◌,
}
use aurora_data_api.Base.Text.{Text, codes}
use aurora_data_api.Base.Exec.{Result, Exec, ok, raised, diverged, ◌>>◌, raise, modify}
use aurora_data_api.Value.{Stdlib}
use aurora_data_api.Errors.Classes.{Exn, is_instance, unsupported_result}
use aurora_data_api.Convert.Columns.{Column}
use aurora_data_api.Cursor.{
  page_size, negated, is_oversize, with_cursor, set_records_per_page, has_buffered_row,
}
use aurora_data_api.Connection.{is_database_exception, raise_translated}
use aurora_data_api.Platform.{ExecuteArgs, Response, Platform}
use aurora_data_api.Env.{Cursor, PagingState, Env}
use aurora_data_api.Statements.{with_sql, fetch_stmt as fetch_forward_stmt}
use aurora_data_api.Cursor as Sync
use aurora_data_api.Async.Cursor as Async

-- The server takes FETCH n and FETCH FORWARD n for the same statement.
abbrev pub FetchesForward : Platform → Type 0
FetchesForward P =
    (args : ExecuteArgs) (n : ℕ) (name : Text) (w : P.State)
    → P.execute_statement (with_sql (Async.fetch_stmt n name) args) w
      ≡ P.execute_statement (with_sql (fetch_forward_stmt n name) args) w

describe_page_same :
    (columns : Option (List Column)) (c : Cursor)
    → Async.describe_page columns c ≡ Sync.describe_page columns c
unfolding Async.describe_page Sync.set_description
describe_page_same none c = refl
describe_page_same (some []) c = refl
describe_page_same (some (column ∷ columns)) c = refl

module _ {P : Platform} where
  pub pop_same : (env : Env P) → Async.pop_buffered_row env ≡ Sync.pop_buffered_row env
  unfolding Async.pop_buffered_row Sync.pop_buffered_row
  pop_same env = refl

  scroll_in_same :
      (mode : Text) (value : ℤ) (paging : Option PagingState) (env : Env P)
      → Async.scroll_in mode value paging env ≡ Sync.scroll_in mode value paging env
  unfolding Async.scroll_in Sync.scroll_in
  scroll_in_same mode value none env = refl
  scroll_in_same mode value (some paging) env = refl

  scroll_same :
      (value : ℤ) (mode : Text) (env : Env P)
      → Async.scroll value mode env ≡ Sync.scroll value mode env
  unfolding Async.scroll Sync.scroll
  scroll_same value mode env = scroll_in_same mode value env.cursor.paging_state env

  module _ (L : Stdlib) where
    store_page_same :
        (page : Response) (env : Env P) → Async.store_page L page env ≡ Sync.store_page L page env
    unfolding Async.store_page Sync.store_page
    store_page_same page env = rw (describe_page_same page.column_metadata env.cursor) refl

    fetch_failed_same :
        (again : Exec Exn (Env P) (Unit {0})) (rpp : ℕ) (e : Exn)
        → Async.fetch_failed L again rpp e ≡ Sync.fetch_failed L again rpp e
    unfolding Async.fetch_failed Sync.fetch_failed
    fetch_failed_same again rpp e =
        ap
          (λ (rewind : Exec Exn (Env P) (Unit {0})).
            if is_instance e unsupported_result
            then (if is_oversize e && ltb 1 rpp
                then rewind
                  >> modify (with_cursor (set_records_per_page (max 1 (rpp / 2))))
                  >> again
                else raise e)
            else if is_database_exception e
            then raise_translated e
            else raise e)
          (fun_ext (scroll_same (negated rpp) (codes "relative")))

    after_fetch_same :
        (again : Exec Exn (Env P) (Unit {0})) (rpp : ℕ) (r : Result Exn Response) (env : Env P)
        → Async.after_fetch L again rpp r env ≡ Sync.after_fetch L again rpp r env
    unfolding Async.after_fetch Sync.after_fetch
    after_fetch_same again rpp (ok page) env = store_page_same page env
    after_fetch_same again rpp (raised e) env =
        ap (λ (m : Exec Exn (Env P) (Unit {0})). m env) (fetch_failed_same again rpp e)
    after_fetch_same again rpp diverged env = refl

module _ {P : Platform} (forward : FetchesForward P) (L : Stdlib) where
  fetch_in_same :
      (again : Exec Exn (Env P) (Unit {0})) (paging : Option PagingState) (env : Env P)
      → Async.fetch_in L again paging env ≡ Sync.fetch_in L again paging env
  unfolding Async.fetch_in Sync.fetch_in
  fetch_in_same again none env = refl
  fetch_in_same again (some paging) env =
      rw
        (forward paging.execute_statement_args paging.records_per_page paging.pg_cursor_name
          env.world)
        (after_fetch_same L again paging.records_per_page _ _)

  fetch_loop_same :
      (fuel : ℕ) (env : Env P) → Async.fetch_loop L fuel env ≡ Sync.fetch_loop L fuel env
  unfolding Async.fetch_loop Sync.fetch_loop
  fetch_loop_same zero env = refl
  fetch_loop_same (suc fuel) env =
      ap
        (λ (again : Exec Exn (Env P) (Unit {0})).
          Async.fetch_in L again env.cursor.paging_state env)
        (fun_ext (fetch_loop_same fuel))
      ∙ fetch_in_same (λ env'. Sync.fetch_loop L fuel env') env.cursor.paging_state env

  pub fetch_next_page_same :
      (env : Env P) → Async.fetch_next_page L env ≡ Sync.fetch_next_page L env
  unfolding Async.fetch_next_page Sync.fetch_next_page
  fetch_next_page_same env = fetch_loop_same (suc (page_size env.cursor.paging_state)) env
