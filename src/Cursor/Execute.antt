-- ===== src/Cursor/Execute.antt =====
-- `AuroraDataAPICursor` of __init__.py: the methods that send statements, and what they report.
pub mod Frame
pub mod Paged
pub mod Terminated
pub mod Rows
use aurora_data_api.Base.{
  ℕ, suc, ◌/◌, true, false, Option, none, some, List, [], ◌&&◌, if◌then◌else◌, max,
}
use aurora_data_api.Base.Text.{Text, codes}
use aurora_data_api.Base.Exec.{
  Result, Exec, ok, raised, diverged, raise, lift, modify, try_except, ◌>>=◌, ◌>>◌,
}
use aurora_data_api.Value.{Stdlib}
use aurora_data_api.Convert.Columns.{Column}
use aurora_data_api.Convert.Params.{
  Param, Parameters, no_parameters, mapping, not_mapping, format_parameters,
}
use aurora_data_api.Errors.Classes.{Exn, unsupported_result, is_instance}
use aurora_data_api.Retry.{retry_resuming}
use aurora_data_api.Platform.{ExecuteArgs, Response, Platform}
use aurora_data_api.Env.{Connection, Rendered, Cursor, Env, call, sleeping}
use aurora_data_api.Connection.{prepare_execute_args, is_database_exception, raise_translated}
use aurora_data_api.Statements.{cursor_name, declare_stmt, with_sql, render_response}
use aurora_data_api.Cursor.{
  items, is_described, is_oversize, with_cursor, set_description, fetch_next_page,
}

-- The attributes of a new cursor.
unfoldable pub new_cursor : ℕ → Cursor
new_cursor arraysize = record {
  arraysize = arraysize;
  description = none;
  current_response = none;
  iterator = false;
  paging_state = none;
  buffer = none;
  buffer_idx = 0;
}

-- The first lines of `execute`, and those of `close`.
abbrev pub reset : Cursor → Cursor
reset c = record c {
  current_response = none;
  iterator = false;
  paging_state = none;
  buffer = none;
  buffer_idx = 0;
}

-- `records_per_page or self.arraysize`
abbrev pub or_arraysize : Option ℕ → ℕ → ℕ
or_arraysize (some (suc n)) arraysize = suc n
or_arraysize _ arraysize = arraysize

abbrev start_paging : ExecuteArgs → ℕ → Text → Cursor → Cursor
start_paging args size name c = record c {
  paging_state =
      some
        (record { execute_statement_args = args; records_per_page = size; pg_cursor_name = name });
  buffer = none;
  buffer_idx = 0;
}

-- `"columnMetadata" in res and not self.description`
abbrev pub describe_response : Option (List Column) → Cursor → Cursor
describe_response none c = c
describe_response (some columns) c =
    if is_described c.description then c else set_description columns c

abbrev pub store_rendered : Rendered → Cursor → Cursor
store_rendered rendered c = record c {
  current_response = some rendered;
  buffer = some (items rendered.records);
  buffer_idx = 0;
}

abbrev pub with_iterator : Cursor → Cursor
with_iterator c = record c { iterator = true }

abbrev pub module_name : Text
module_name = codes "aurora_data_api"

module _ (L : Stdlib) where
  -- `if parameters: …`
  unfoldable pub parameters_arg : Parameters → Result Exn (Option (List Param))
  parameters_arg no_parameters = ok none
  parameters_arg (mapping []) = ok none
  parameters_arg (not_mapping false) = ok none
  parameters_arg parameters = elim (format_parameters L parameters) [
    | ok params ↦ ok (some params)
    | raised e ↦ raised e
    | diverged ↦ diverged
  ]

  abbrev pub execute_args : Connection → Text → Option (List Param) → ExecuteArgs
  execute_args connection operation params = record (prepare_execute_args connection operation) {
    include_result_metadata = true;
    continue_after_timeout = connection.continue_after_timeout;
    parameters = params;
  }

module _ {P : Platform} (L : Stdlib) where
  unfoldable pub fresh_name : Exec Exn (Env P) Text
  fresh_name env =
      let (suffix, w) = P.cursor_suffix env.world in
      (ok (cursor_name module_name suffix), record env { world = w })

  -- The cursor is declared, and becomes the paging state.
  unfoldable pub declare_cursor : ExecuteArgs → Option ℕ → Text → Exec Exn (Env P) (Unit {0})
  declare_cursor args records_per_page name =
      let exec_args = with_sql (declare_stmt name args.sql) args in
      call (P.execute_statement exec_args)
      >> modify (λ env.
        with_cursor
          (start_paging exec_args (or_arraysize records_per_page env.cursor.arraysize) name) env)

  -- `_start_paginated_query`
  unfoldable pub start_paginated_query : ExecuteArgs → Option ℕ → Exec Exn (Env P) (Unit {0})
  unfolding fresh_name declare_cursor
  start_paginated_query args records_per_page =
      fresh_name >>= λ name. declare_cursor args records_per_page name >> fetch_next_page L

  -- The `try` inside the handler of an oversize result.
  unfoldable pub paginate_again : ExecuteArgs → Exn → Exec Exn (Env P) (Unit {0})
  unfolding start_paginated_query
  paginate_again args e env =
      (if is_instance e unsupported_result && is_oversize e
          then start_paginated_query args (some (max 1 (env.cursor.arraysize / 2)))
          else raise e)
        env

  unfoldable pub paginate : ExecuteArgs → Exec Exn (Env P) (Unit {0})
  unfolding start_paginated_query paginate_again
  paginate args = try_except (start_paginated_query args none) (paginate_again args)

  -- The `except` clauses of `execute`.
  execute_failed : ExecuteArgs → Exn → Exec Exn (Env P) (Unit {0})
  unfolding paginate
  execute_failed args e =
      if is_database_exception e
      then raise_translated e
      else if is_instance e unsupported_result && is_oversize e
      then paginate args
      else raise e

  store_response : Response → Exec Exn (Env P) (Unit {0})
  store_response res env =
      let env' = with_cursor (describe_response res.column_metadata) env in
      (lift (render_response L env'.cursor.description res) >>= λ rendered.
      modify (with_cursor (store_rendered rendered)))
        env'

  send : ExecuteArgs → Exec Exn (Env P) (Unit {0})
  unfolding store_response execute_failed
  send args = try_except (call (P.execute_statement args) >>= store_response) (execute_failed args)

  -- `execute` without its decorator.
  pub execute_once : Text → Parameters → Exec Exn (Env P) (Unit {0})
  unfolding send parameters_arg
  execute_once operation parameters env =
      (lift (parameters_arg L parameters) >>= λ params.
      send (execute_args L env.connection operation params) >> modify (with_cursor with_iterator))
        (with_cursor reset env)

  pub execute : Text → Parameters → Exec Exn (Env P) (Unit {0})
  unfolding execute_once
  execute operation parameters = retry_resuming sleeping (execute_once operation parameters)
