-- ===== src/Async/Adapted/Drained.antt =====
-- The rows that `_async_soft_close` of `SyncAdaptedCursor` in async_driver.py has drained.
pub mod Paged
use mathlib.Core.Path.{fun_ext}
use aurora_data_api.Base.{
  ℕ, zero, suc, ◌≡◌, inl, inr, refl, sym, ap, ◌∙◌, false, Option, none, some, List, [], ◌∷◌,
}
use aurora_data_api.Base.Exec.{Result, Exec, ok, continue, ◌>>=◌}
use aurora_data_api.Value.{Stdlib}
use aurora_data_api.Errors.Classes.{Exn}
use aurora_data_api.Platform.{Platform}
use aurora_data_api.Env.{Row, Env}
use aurora_data_api.Cursor.{items}
use aurora_data_api.Cursor.{with_cursor}
use aurora_data_api.Async.Cursor.Execute.{reset}
use aurora_data_api.Async.Cursor.Report.{close}
use aurora_data_api.Async.Cursor.Same.{next_row}
use aurora_data_api.Async.Cursor.Fetch as AsyncFetch
use aurora_data_api.Async.Adapted.{
  Adapted, fetchone, fetchmany, fetchall, fetchone_from, fetchmany_from, fetchall_from, drain,
  async_soft_close,
}
use aurora_data_api.Source.{
  row_list, head, head_list, Fetch, one, many, all, taken, left, replay, run, RowSource,
  run-Refines,
}

module _ {P : Platform} (L : Stdlib) (fuel : ℕ) where
  pub fetch : Fetch → Exec Exn (Adapted P) (List Row)
  fetch one = fetchone L >>= λ row. λ a. (ok (row_list row), a)
  fetch (many size) = fetchmany L (some size)
  fetch all = fetchall L fuel

  -- Drained, with the connection, the cursor and the outside world as given.
  record IsDrained (env : Env P) (a : Adapted P) : Type 0 where
    drained : (rows : List Row) × (a.drained_rows ≡ some rows)
    untouched : a.env ≡ env

  -- Each call, by the rows.
  abbrev after : Fetch → List Row → Adapted P → Adapted P
  after f rows a = record a { drained_rows = some (left f rows) }

  keep_drained :
      (a : Adapted P) {rows : List Row}
      → a.drained_rows ≡ some rows
      → a ≡ record a { drained_rows = some rows }
  keep_drained a e = ap (λ d. record a { drained_rows = d }) e

  pop_drained :
      (rows : List Row) (a : Adapted P)
      → a.drained_rows ≡ some rows
      → fetchone_from L (some rows) a ≡ (ok (head rows), after one rows a)
  unfolding fetchone_from
  pop_drained [] a e = ap (λ a'. (ok none, a')) (keep_drained a e)
  pop_drained (row ∷ rows) a e = refl

  fetch_drained :
      (f : Fetch) (rows : List Row) (a : Adapted P)
      → a.drained_rows ≡ some rows
      → fetch f a ≡ (ok (taken f rows), after f rows a)
  unfolding fetch fetchone fetchmany fetchall fetchmany_from fetchall_from
  fetch_drained one rows a e =
      let popped = ap (λ d. fetchone_from L d a) e ∙ pop_drained rows a e in
      ap
        (λ (p : Result Exn (Option Row) × Adapted P).
          continue p.0 (λ row. λ a'. (ok (row_list row), a')) p.1)
        popped
      ∙ ap (λ l. (ok l, after one rows a)) (head_list rows)
  fetch_drained (many size) rows a e = ap (λ d. fetchmany_from L size d a) e
  fetch_drained all rows a e = ap (λ d. fetchall_from L fuel d a) e

  rows_of :
      (a : Adapted P) {rows : List Row} → a.drained_rows ≡ some rows → items a.drained_rows ≡ rows
  rows_of a e = ap items e

  drained_source : Env P → RowSource fetch ⊥
  drained_source env = record {
    rows = λ a. items a.drained_rows;
    Ready = IsDrained env;
    step = λ f a h.
        let (rows, e) = h.drained in
        inl (
          after f rows a,
          fetch_drained f rows a e ∙ ap (λ l. (ok (taken f l), after f rows a)) (sym (rows_of a e)),
          ap (left f) (sym (rows_of a e)),
          record { drained = (left f rows, refl); untouched = h.untouched },
        );
  }

-- The face after the drain, used outside any greenlet.
abbrev pub outside : {P : Platform} → Adapted P → Adapted P
outside a = record a { in_greenlet = false }

module _ {P : Platform} (L : Stdlib) where
  drain_same :
      (fuel : ℕ) (rows : List Row) (env : Env P)
      → drain L fuel rows env ≡ AsyncFetch.fetch_rest L fuel rows env
  unfolding drain AsyncFetch.fetch_rest
  drain_same zero rows env = refl
  drain_same (suc fuel) rows env =
      ap (λ again. next_row rows again (AsyncFetch.fetchone L env))
        (fun_ext λ rows'. fun_ext (drain_same fuel rows'))

  closed :
      (fuel : ℕ) (a : Adapted P) (rows : List Row) (env' : Env P)
      → AsyncFetch.fetchall L fuel a.env ≡ (ok rows, env')
      → async_soft_close L fuel a
        ≡ (ok tt, record a { env = with_cursor reset env'; drained_rows = some rows })
  unfolding async_soft_close AsyncFetch.fetchall close
  closed fuel a rows env' e = let drained = drain_same fuel [] a.env ∙ e in rw drained refl

  -- If fetchall of the asynchronous cursor returns rows, then _async_soft_close returns, and any
  -- sequence of fetch calls made on the adapted cursor afterwards, outside a greenlet, hands out
  -- these rows, each once and in order, as a list would, and leaves the outside world as fetchall
  -- left it.
  pub async_soft_close-replay :
      (fuel later : ℕ) (a : Adapted P) (rows : List Row) (env' : Env P) (calls : List Fetch)
      → AsyncFetch.fetchall L fuel a.env ≡ (ok rows, env')
      → ((async_soft_close L fuel a).0 ≡ ok tt)
        × ((run (fetch L later) calls (outside (async_soft_close L fuel a).1)).0
            ≡ ok (replay calls rows))
        × ((run (fetch L later) calls (outside (async_soft_close L fuel a).1)).1.env.world
            ≡ env'.world)
  unfolding drained_source
  async_soft_close-replay fuel later a rows env' calls e =
      let after_close = record a { env = with_cursor reset env'; drained_rows = some rows } in
      let start : IsDrained L later (with_cursor reset env') (outside after_close) = record {
        drained = (rows, refl);
        untouched = refl;
      } in
      elim (run-Refines (fetch L later) (drained_source L later (with_cursor reset env')) calls
        (outside after_close) start) [
          | inl (s', same, still) ↦ rw (closed fuel a rows env' e) (
            refl,
            ap (λ p. p.0) same,
            ap (λ p. p.1.env.world) same ∙ ap (λ (env : Env P). env.world) still.untouched,
          )
          | inr (never, _, _, _) ↦ absurd never
        ]
