-- ===== src/Cursor/Fetch/Frame.antt =====
-- What the methods of `AuroraDataAPICursor` in __init__.py that hand rows out leave alone.
use aurora_data_api.Base.{ℕ, zero, suc, Option, none, some, List, [], ◌∷◌, ◌++◌}
use aurora_data_api.Base.Exec.{Result, Exec, ok, raised, diverged}
use aurora_data_api.Base.Keeps.{Keeps, bind-Keeps}
use aurora_data_api.Value.{Stdlib}
use aurora_data_api.Errors.Classes.{Exn}
use aurora_data_api.Platform.{Platform}
use aurora_data_api.Env.{Row, PagingState, Env}
use aurora_data_api.Source.{Fetch, one, many, all}
use aurora_data_api.Cursor.Frame.{
  Frame, Frame-Preorder, pop_buffered_row-Frame, fetch_next_page-Frame,
}
use aurora_data_api.Cursor.Fetch.{
  fetchone, fetchone_unbuffered, after_pop, fetch_rows, fetchmany, fetch_rest, fetchall,
}
use aurora_data_api.Cursor.Fetch.Stream.{fetch}

module _ {P : Platform} (L : Stdlib) where
  fetchone_unbuffered-Frame :
      (paging : Option PagingState) → Keeps Frame (fetchone_unbuffered {P = P} L paging)
  unfolding fetchone_unbuffered
  fetchone_unbuffered-Frame none = record { keeps = Frame-Preorder.same }
  fetchone_unbuffered-Frame (some paging) = record {
    keeps =
        (bind-Keeps Frame-Preorder (fetch_next_page-Frame L) (λ _. pop_buffered_row-Frame)).keeps;
  }

  after_pop-Frame : (row : Option Row) → Keeps Frame (after_pop {P = P} L row)
  unfolding after_pop
  after_pop-Frame (some row) = record { keeps = Frame-Preorder.same }
  after_pop-Frame none = record {
    keeps = λ env. (fetchone_unbuffered-Frame env.cursor.paging_state).keeps env;
  }

  fetchone-Frame : Keeps Frame (fetchone {P = P} L)
  unfolding fetchone
  fetchone-Frame = bind-Keeps Frame-Preorder pop_buffered_row-Frame after_pop-Frame

  -- A round of the loops, after its `fetchone`.
  abbrev next_round :
      List Row
      → (List Row → Exec Exn (Env P) (List Row))
      → Result Exn (Option Row)
      → Exec Exn (Env P) (List Row)
  next_round rows again r env = elim r [
    | ok (some row) ↦ again (rows ++ (row ∷ [])) env
    | ok none ↦ (ok rows, env)
    | raised e ↦ (raised e, env)
    | diverged ↦ (diverged, env)
  ]

  next_round-Frame :
      (rows : List Row) {again : List Row → Exec Exn (Env P) (List Row)}
      (r : Result Exn (Option Row))
      → ((rows : List Row) → Keeps Frame (again rows))
      → Keeps Frame (next_round rows again r)
  next_round-Frame rows (ok (some row)) h = record { keeps = (h (rows ++ (row ∷ []))).keeps }
  next_round-Frame rows (ok none) h = record { keeps = Frame-Preorder.same }
  next_round-Frame rows (raised e) h = record { keeps = Frame-Preorder.same }
  next_round-Frame rows diverged h = record { keeps = Frame-Preorder.same }

  rounds-Frame :
      (rows : List Row) {again : List Row → Exec Exn (Env P) (List Row)}
      → ((rows : List Row) → Keeps Frame (again rows))
      → (env : Env P) → Frame env (next_round rows again (fetchone L env).0 (fetchone L env).1).1
  rounds-Frame rows h env =
      Frame-Preorder.after env (fetchone L env).1 _ (fetchone-Frame.keeps env)
        ((next_round-Frame rows (fetchone L env).0 h).keeps (fetchone L env).1)

  fetch_rows-Frame : (size : ℕ) (rows : List Row) → Keeps Frame (fetch_rows {P = P} L size rows)
  unfolding fetch_rows
  fetch_rows-Frame zero rows = record { keeps = Frame-Preorder.same }
  fetch_rows-Frame (suc size) rows = record {
    keeps = λ env. rounds-Frame rows (fetch_rows-Frame size) env;
  }

  fetch_rest-Frame : (fuel : ℕ) (rows : List Row) → Keeps Frame (fetch_rest {P = P} L fuel rows)
  unfolding fetch_rest
  fetch_rest-Frame zero rows = record { keeps = Frame-Preorder.same }
  fetch_rest-Frame (suc fuel) rows = record {
    keeps = λ env. rounds-Frame rows (fetch_rest-Frame fuel) env;
  }

  -- However fetchone, fetchmany or fetchall ends, on any cursor and any server, the connection
  -- with its transaction and the array size are as they were, and so is the description of a
  -- cursor that already had columns. If before the call the index was inside the buffer or at its
  -- end and neither the array size nor the size of a page was zero, then this holds afterwards.
  pub fetch-Frame : (fuel : ℕ) (f : Fetch) (env : Env P) → Frame env (fetch L fuel f env).1
  unfolding fetch fetchmany fetchall
  fetch-Frame fuel one env =
      (bind-Keeps Frame-Preorder fetchone-Frame
          (λ row. record { keeps = Frame-Preorder.same })).keeps
        env
  fetch-Frame fuel (many size) env = (fetch_rows-Frame size []).keeps env
  fetch-Frame fuel all env = (fetch_rest-Frame fuel []).keeps env
