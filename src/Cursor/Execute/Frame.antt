-- ===== src/Cursor/Execute/Frame.antt =====
-- What `execute` of `AuroraDataAPICursor` in __init__.py leaves alone, however it ends.
use aurora_data_api.Base.{
  zero, suc, ◌≤◌, max, ◌/◌, ℕ, refl, Option, none, some, List, Bool-cases, inl, inr, arith,
}
use aurora_data_api.Base.Text.{Text}
use aurora_data_api.Base.Exec.{◌>>◌, modify}
use aurora_data_api.Base.Keeps.{
  Keeps, bind-Keeps, try_except-Keeps, if-Keeps, raise-Keeps, lift-Keeps,
}
use aurora_data_api.Value.{Stdlib}
use aurora_data_api.Convert.Columns.{Column}
use aurora_data_api.Convert.Params.{Parameters, Param}
use aurora_data_api.Errors.Classes.{Exn}
use aurora_data_api.Retry.Keeps.{retry_resuming-Keeps}
use aurora_data_api.Platform.{ExecuteArgs, Response, Platform}
use aurora_data_api.Env.{Cursor, Env, Rendered, sleeping}
use aurora_data_api.Cursor.{
  with_cursor, render_response, is_described, Connection, set_description, with_sql, declare_stmt,
}
use aurora_data_api.Cursor.Frame.{
  Frame, SameCursor, Frame-Preorder, call-Frame, modify-Frame, fetch_next_page-Frame,
  raise_translated-Frame,
}
use aurora_data_api.Cursor.Execute.{
  reset, describe_response, store_rendered, with_iterator, fresh_name, start_paginated_query,
  paginate_again, paginate, execute_failed, store_response, send, execute_once, execute,
  parameters_arg, declare_cursor, execute_args, or_arraysize,
}

describe_response-SameCursor :
    (columns : Option (List Column)) (c : Cursor) → SameCursor c (describe_response columns c)
unfolding set_description
describe_response-SameCursor none c = record {
  arraysize = refl;
  description = λ h. refl;
  within = λ h. h;
}
describe_response-SameCursor (some columns) c = elim (Bool-cases (is_described c.description)) [
  | inl there ↦ rw there (record { arraysize = refl; description = λ h. refl; within = λ h. h })
  | inr not_there ↦
      rw not_there
        (record { arraysize = refl; description = λ h. absurd (ground arith); within = λ h. h })
]

pub or_arraysize-le : (n : Option ℕ) (arraysize : ℕ) → 1 ≤ arraysize → 1 ≤ or_arraysize n arraysize
or_arraysize-le none arraysize h = h
or_arraysize-le (some zero) arraysize h = h
or_arraysize-le (some (suc n)) arraysize h = omega arith

module _ {P : Platform} (L : Stdlib) where
  fresh_name-Frame : Keeps Frame (fresh_name {P = P} L)
  unfolding fresh_name
  fresh_name-Frame = record {
    keeps = λ env. record {
      connection = refl;
      cursor = record { arraysize = refl; description = λ h. refl; within = λ h. h };
    };
  }

  declare_cursor-Frame :
      (args : ExecuteArgs) (n : Option ℕ) (name : Text)
      → Keeps Frame (declare_cursor {P = P} L args n name)
  unfolding declare_cursor
  declare_cursor-Frame args n name =
      bind-Keeps Frame-Preorder {A = Response}
        (call-Frame (P.execute_statement (with_sql (declare_stmt name args.sql) args)))
        λ _. record {
          keeps = λ env. record {
            connection = refl;
            cursor = record {
              arraysize = refl;
              description = λ h. refl;
              within = λ (index, size, page).
                  (omega arith, size, or_arraysize-le n env.cursor.arraysize size);
            };
          };
        }

  pub start_paginated_query-Frame :
      (args : ExecuteArgs) (n : Option ℕ) → Keeps Frame (start_paginated_query {P = P} L args n)
  unfolding start_paginated_query
  start_paginated_query-Frame args n = bind-Keeps Frame-Preorder fresh_name-Frame λ name.
      bind-Keeps Frame-Preorder (declare_cursor-Frame args n name) (λ _. fetch_next_page-Frame L)

  paginate_again-Frame :
      (args : ExecuteArgs) (e : Exn) → Keeps Frame (paginate_again {P = P} L args e)
  unfolding paginate_again
  paginate_again-Frame args e = record {
    keeps = λ env.
        (if-Keeps _ (start_paginated_query-Frame args (some (max 1 (env.cursor.arraysize / 2))))
            (raise-Keeps Frame-Preorder e)).keeps
          env;
  }

  execute_failed-Frame :
      (args : ExecuteArgs) (e : Exn) → Keeps Frame (execute_failed {P = P} L args e)
  unfolding execute_failed paginate
  execute_failed-Frame args e = if-Keeps _ (raise_translated-Frame e) (
      if-Keeps _
        (try_except-Keeps Frame-Preorder (start_paginated_query-Frame args none)
          (paginate_again-Frame args))
        (raise-Keeps Frame-Preorder e))

  stored_response :
      (rendered : Rendered)
      → Keeps {E = Exn} Frame (modify (with_cursor {P = P} (store_rendered rendered)))
  stored_response rendered = modify-Frame _ (λ c. record {
    arraysize = refl;
    description = λ h. refl;
    within = λ (index, size, page). (omega arith, size, page);
  })

  store_response-Frame : (res : Response) → Keeps Frame (store_response {P = P} L res)
  unfolding store_response
  store_response-Frame res = record {
    keeps = λ env.
        let described = with_cursor (describe_response res.column_metadata) env in
        let rendered = render_response L described.cursor.description res in
        Frame-Preorder.after env described _
          (record {
            connection = refl;
            cursor = describe_response-SameCursor res.column_metadata env.cursor;
          })
          ((bind-Keeps Frame-Preorder (lift-Keeps Frame-Preorder rendered) stored_response).keeps
            described);
  }

  send-Frame : (args : ExecuteArgs) → Keeps Frame (send {P = P} L args)
  unfolding send
  send-Frame args =
      try_except-Keeps Frame-Preorder
        (bind-Keeps Frame-Preorder (call-Frame _) store_response-Frame) (execute_failed-Frame args)

  sent :
      (connection : Connection) (operation : Text) (params : Option (List Param))
      → Keeps Frame (
          send {P = P} L (execute_args L connection operation params)
          >> modify (with_cursor with_iterator))
  sent connection operation params =
      bind-Keeps Frame-Preorder (send-Frame (execute_args L connection operation params)) (λ _.
        modify-Frame _ (λ c. record { arraysize = refl; description = λ h. refl; within = λ h. h }))

  execute_once-Frame :
      (operation : Text) (parameters : Parameters)
      → Keeps Frame (execute_once {P = P} L operation parameters)
  unfolding execute_once
  execute_once-Frame operation parameters = record {
    keeps = λ env.
        let cleared = with_cursor reset env in
        Frame-Preorder.after env cleared _
          (record {
            connection = refl;
            cursor = record {
              arraysize = refl;
              description = λ h. refl;
              within = λ (index, size, page). (omega arith, size, tt);
            };
          })
          ((bind-Keeps Frame-Preorder (lift-Keeps Frame-Preorder (parameters_arg L parameters))
              (sent env.connection operation)).keeps
            cleared);
  }

  -- However execute ends, the connection with its transaction and the array size are as they were,
  -- and so is the description of a cursor that already had columns. If before execute the index
  -- was inside the buffer or at its end and neither the array size nor the size of a page was
  -- zero, then this holds afterwards.
  pub execute-Frame :
      (operation : Text) (parameters : Parameters) (env : Env P)
      → Frame env (execute L operation parameters env).1
  unfolding execute
  execute-Frame operation parameters env =
      (retry_resuming-Keeps Frame-Preorder sleeping (execute_once L operation parameters)
          (λ d s. record {
            connection = refl;
            cursor = record { arraysize = refl; description = λ h. refl; within = λ h. h };
          })
          (execute_once-Frame operation parameters)).keeps
        env
