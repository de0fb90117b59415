-- ===== src/Cursor/Execute/Rows.antt =====
-- `execute` of `AuroraDataAPICursor` in __init__.py, where the response is not too large, and the rows
-- that are handed out after it.
use aurora_data_api.Base.{
  inl, inr, ℕ, ◌<◌, ◌≡◌, refl, ap, ◌∙◌, Option, List, length, none, some, Bool-cases,
}
use aurora_data_api.Base.Text.{Text}
use aurora_data_api.Base.Exec.{ok}
use aurora_data_api.Value.{Stdlib}
use aurora_data_api.Convert.Columns.{Column}
use aurora_data_api.Convert.Params.{Param, Parameters}
use aurora_data_api.Retry.Laws.{retry_resuming_once}
use aurora_data_api.Platform.{Response, Platform}
use aurora_data_api.Env.{Rendered, Env, sleeping}
use aurora_data_api.Statements.{render_response}
use aurora_data_api.Cursor.{items, with_cursor, set_description, Cursor, is_described}
use aurora_data_api.Cursor.Fetch.{fetchall}
use aurora_data_api.Cursor.Fetch.Rows.{fetchall-pending}
use aurora_data_api.Cursor.Execute.{
  reset, describe_response, store_rendered, with_iterator, execute_args, parameters_arg, send,
  store_response, execute_once, execute,
}

describe_response-paging :
    (columns : Option (List Column)) (c : Cursor)
    → (describe_response columns c).paging_state ≡ c.paging_state
unfolding set_description
describe_response-paging none c = refl
describe_response-paging (some columns) c = elim (Bool-cases (is_described c.description)) [
  | inl there ↦ rw there refl
  | inr not_there ↦ rw not_there refl
]

-- The state after a response has been stored.
abbrev pub answered : {P : Platform} → Env P → Response → Rendered → P.State → Env P
answered env res rendered w =
    with_cursor
      (λ c.
        with_iterator (store_rendered rendered (describe_response res.column_metadata (reset c))))
      (record env { world = w })

module _ {P : Platform} (L : Stdlib) (operation : Text) (parameters : Parameters) where
  execute_once-answered :
      (env : Env P) (params : Option (List Param)) (res : Response) (w : P.State)
      (rendered : Rendered)
      → parameters_arg L parameters ≡ ok params
      → P.execute_statement (execute_args L env.connection operation params) env.world ≡ (ok res, w)
      → render_response L (describe_response res.column_metadata (reset env.cursor)).description res
        ≡ ok rendered
      → execute_once L operation parameters env ≡ (ok tt, answered env res rendered w)
  unfolding execute_once send store_response
  execute_once-answered env params res w rendered ep es er =
      let r = ap (λ p. p.0) es in let s = ap (λ p. p.1) es in rw (ep, r, s, er) refl

  pub execute-answered :
      (env env' : Env P)
      → execute_once L operation parameters env ≡ (ok tt, env')
      → execute L operation parameters env ≡ (ok tt, env')
  unfolding execute
  execute-answered env env' e =
      retry_resuming_once sleeping (execute_once L operation parameters) env
        (λ bad. rw (ap (λ p. p.0) e) at bad)
      ∙ e

  unpaged :
      (env : Env P) (res : Response) (rendered : Rendered) (w : P.State)
      → (answered env res rendered w).cursor.paging_state ≡ none
  unpaged env res rendered w = describe_response-paging res.column_metadata (reset env.cursor)

  -- If the parameters can be formatted, execute_statement answers the statement with a response,
  -- and its records can be converted with the description that the cursor then has, then execute
  -- succeeds, and a fetchall that is given more rounds than there are records returns exactly the
  -- converted records, in order.
  pub fetchall-execute :
      (env : Env P) (params : Option (List Param)) (res : Response) (w : P.State)
      (rendered : Rendered) (fuel : ℕ)
      → parameters_arg L parameters ≡ ok params
      → P.execute_statement (execute_args L env.connection operation params) env.world ≡ (ok res, w)
      → render_response L (describe_response res.column_metadata (reset env.cursor)).description res
        ≡ ok rendered
      → length (items rendered.records) < fuel
      → ((execute L operation parameters env).0 ≡ ok tt)
        × ((fetchall L fuel (execute L operation parameters env).1).0 ≡ ok (items rendered.records))
  fetchall-execute env params res w rendered fuel ep es er enough =
      let done =
        execute-answered env (answered env res rendered w)
          (execute_once-answered env params res w rendered ep es er) in
      (
        ap (λ p. p.0) done,
        rw (ap (λ p. p.1) done)
            (fetchall-pending L fuel (answered env res rendered w) (unpaged env res rendered w)
              enough).0,
      )
