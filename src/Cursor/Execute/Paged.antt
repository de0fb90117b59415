-- ===== src/Cursor/Execute/Paged.antt =====
-- `execute` of `AuroraDataAPICursor` in __init__.py, where the response is too large.
use aurora_data_api.Base.{ℕ, ◌≡◌, refl, ◌⊎◌, Option, List, true}
use aurora_data_api.Base.Text.{Text, contains}
use aurora_data_api.Base.Exec.{◌>>◌, modify, Result, ok, raised}
use aurora_data_api.Value.{Stdlib}
use aurora_data_api.Convert.Columns.{ColumnDescription}
use aurora_data_api.Convert.Params.{Param, Parameters}
use aurora_data_api.Errors.Classes.{Exn, new_exn, unsupported_result, is_instance}
use aurora_data_api.Platform.{Response, Platform}
use aurora_data_api.Env.{Row, Env}
use aurora_data_api.Source.{Fetch}
use aurora_data_api.Statements.{cursor_name, declare_stmt, with_sql, size_limit, render_records}
use aurora_data_api.Cursor.{with_cursor}
use aurora_data_api.Cursor.Fetch.Server.{Serves}
use aurora_data_api.Cursor.Fetch.Server.Pages.{IsUsable}
use aurora_data_api.Cursor.Fetch.Server.Paged.{IsPaged, rows_left}
use aurora_data_api.Cursor.Execute.{
  reset, with_iterator, module_name, execute_args, parameters_arg, paginate, send, execute_failed,
  execute_once,
}

module _ {P : Platform} (L : Stdlib) (server : Serves P) (d : Option (List ColumnDescription))
    (rows : List Row) (renders : render_records L d server.records ≡ ok rows) where
  open server use {execute_statement_args}

  -- The name of the next cursor, and the world after it is made.
  abbrev next_name : P.State → Text
  next_name w = cursor_name module_name (P.cursor_suffix w).0

  -- The request of its declaration.
  abbrev declaring : P.State → Result Exn Response × P.State
  declaring w =
      P.execute_statement
        (with_sql (declare_stmt (next_name w) execute_statement_args.sql) execute_statement_args)
        (P.cursor_suffix w).1

  -- Paged at the start of the rows, or an exception, if `F`.
  abbrev Starts : Type 0 → ℕ → Env P → Result Exn (Unit {0}) × Env P → Type 0
  Starts F largest env r =
      ((env' : Env P) × (r ≡ (ok tt, env'))
        × IsPaged L server d rows renders largest env'
        × (rows_left L server d rows renders env' ≡ rows))
      ⊎ (F × (e : Exn) × (env' : Env P) × (r ≡ (raised e, env')) × IsUsable L server d env')

  -- Why there may be no cursor.
  abbrev Undeclared : Type 0 → Type 0
  Undeclared F = (e : Exn) (w w' : P.State) → declaring w ≡ (raised e, w') → F

-- The cursor after the refusal of its statement.
abbrev pub refused : {P : Platform} → Env P → P.State → Env P
refused env w = with_cursor reset (record env { world = w })

module _ {P : Platform} (L : Stdlib) (operation : Text) (parameters : Parameters) where
  pub execute_once-paginated :
      (env env' : Env P) (params : Option (List Param)) (message : Text) (w : P.State)
      (r : Result Exn (Unit {0}))
      → parameters_arg L parameters ≡ ok params
      → P.execute_statement (execute_args L env.connection operation params) env.world
        ≡ (raised (new_exn unsupported_result message), w)
      → contains size_limit message ≡ true
      → paginate L (execute_args L env.connection operation params) (refused env w) ≡ (r, env')
      → execute_once L operation parameters env
        ≡ ((λ (s : Env P). (r, s)) >> modify (with_cursor with_iterator)) env'
  unfolding execute_once send execute_failed is_instance
  execute_once-paginated env env' params message w r ep er oversize pages =
      rw (ep, er, oversize, pages) refl
