-- ===== src/Cursor/Fetch/Rows.antt =====
-- The rows of a result that came in one response: what the methods of `AuroraDataAPICursor` that hand
-- rows out make of the buffer.
use mathlib.Core.List.{append-nil, append_assoc}
use aurora_data_api.Base.{
  ◌<◌, drop-add, get_elem?-drop, ℕ, zero, suc, ◌+◌, ◌≤◌, ◌≡◌, refl, sym, ap, ◌∙◌, Bool, true, false,
  Option, none, some, List, [], ◌∷◌, ◌++◌, arith, drop, take, length, length-drop, ◌-◌, ◌&&◌, ltb,
  get_elem?, is_nonempty,
}
use aurora_data_api.Base.Exec.{ok}
use aurora_data_api.Value.{Stdlib}
use aurora_data_api.Platform.{Platform}
use aurora_data_api.Env.{Row, Cursor, Env}
use aurora_data_api.Cursor.{items, with_cursor, has_buffered_row, pop_buffered_row}
use aurora_data_api.Cursor.Fetch.{
  fetchone, fetchmany, fetchall, fetch_rows, fetch_rest, after_pop, fetchone_unbuffered,
}

-- The rows that are still to be handed out.
abbrev pub pending : Cursor → List Row
pending c = drop c.buffer_idx (items c.buffer)

abbrev pub advance : ℕ → Cursor → Cursor
advance n c = record c { buffer_idx = c.buffer_idx + n }

abbrev buffered : List Row → ℕ → Bool
buffered rows i = is_nonempty rows && ltb i (length rows)

is_buffered : (rows : List Row) (i : ℕ) → i < length rows → buffered rows i ≡ true
is_buffered [] i h = absurd (omega (arith, h))
is_buffered (row ∷ rows) i h = ground arith

not_buffered : (rows : List Row) (i : ℕ) → length rows ≤ i → buffered rows i ≡ false
not_buffered [] i h = refl
not_buffered (row ∷ rows) i h = ground arith

buffered-some :
    (rows : List Row) (i : ℕ) {row : Row} {rest : List Row}
    → drop i rows ≡ row ∷ rest
    → (buffered rows i ≡ true) × (get_elem? rows i ≡ some row) × (drop (i + 1) rows ≡ rest)
buffered-some rows i {row} {rest} e =
    let inside : length rows - i ≡ suc (length rest) = sym (length-drop i rows) ∙ ap length e in
    (
      is_buffered rows i (omega (arith, inside)),
      get_elem?-drop i rows e,
      sym (drop-add i 1 rows) ∙ ap (drop 1) e,
    )

buffered-none : (rows : List Row) (i : ℕ) → drop i rows ≡ [] → buffered rows i ≡ false
buffered-none rows i e =
    let inside : length rows - i ≡ 0 = sym (length-drop i rows) ∙ ap length e in
    not_buffered rows i (omega (arith, inside))

module _ {P : Platform} where
  pub pop_some :
      (env : Env P) {row : Row} {rest : List Row}
      → pending env.cursor ≡ row ∷ rest
      → pop_buffered_row env ≡ (ok (some row), with_cursor (advance 1) env)
  unfolding pop_buffered_row has_buffered_row
  pop_some env e =
      let (has, at, _) = buffered-some (items env.cursor.buffer) env.cursor.buffer_idx e in
      rw (has, at) refl

  pub pop_none : (env : Env P) → pending env.cursor ≡ [] → pop_buffered_row env ≡ (ok none, env)
  unfolding pop_buffered_row has_buffered_row
  pop_none env e = rw (buffered-none (items env.cursor.buffer) env.cursor.buffer_idx e) refl

  pub pending-advance :
      (env : Env P) {row : Row} {rest : List Row}
      → pending env.cursor ≡ row ∷ rest
      → pending (advance 1 env.cursor) ≡ rest
  pending-advance env e = (buffered-some (items env.cursor.buffer) env.cursor.buffer_idx e).2

  module _ (L : Stdlib) where
    pub fetchone-some :
        (env : Env P) {row : Row} {rest : List Row}
        → pending env.cursor ≡ row ∷ rest
        → fetchone L env ≡ (ok (some row), with_cursor (advance 1) env)
    unfolding fetchone after_pop
    fetchone-some env e = rw (pop_some env e) refl

    fetchone-none :
        (env : Env P)
        → pending env.cursor ≡ []
        → env.cursor.paging_state ≡ none
        → fetchone L env ≡ (ok none, env)
    unfolding fetchone after_pop fetchone_unbuffered
    fetchone-none env e unpaged = rw (pop_none env e, unpaged) refl

    pub fetch_rows_stop :
        (size : ℕ) (results : List Row) (env env' : Env P)
        → fetchone L env ≡ (ok none, env')
        → fetch_rows L (suc size) results env ≡ (ok results, env')
    unfolding fetch_rows
    fetch_rows_stop size results env env' e =
        let r = ap (λ p. p.0) e in
        let s = ap (λ p. p.1) e in rw (r, fetch_rows) (ap (λ env'. (ok results, env')) s)

    pub fetch_rows_step :
        (size : ℕ) (results : List Row) (env env' : Env P) {row : Row}
        → fetchone L env ≡ (ok (some row), env')
        → fetch_rows L (suc size) results env ≡ fetch_rows L size (results ++ (row ∷ [])) env'
    unfolding fetch_rows
    fetch_rows_step size results env env' {row} e =
        let r = ap (λ p. p.0) e in
        let s = ap (λ p. p.1) e in
        rw (r, fetch_rows) (ap (fetch_rows L size (results ++ (row ∷ []))) s)

    pub fetch_rest_stop :
        (fuel : ℕ) (results : List Row) (env env' : Env P)
        → fetchone L env ≡ (ok none, env')
        → fetch_rest L (suc fuel) results env ≡ (ok results, env')
    unfolding fetch_rest
    fetch_rest_stop fuel results env env' e =
        let r = ap (λ p. p.0) e in
        let s = ap (λ p. p.1) e in rw (r, fetch_rest) (ap (λ env'. (ok results, env')) s)

    pub fetch_rest_step :
        (fuel : ℕ) (results : List Row) (env env' : Env P) {row : Row}
        → fetchone L env ≡ (ok (some row), env')
        → fetch_rest L (suc fuel) results env ≡ fetch_rest L fuel (results ++ (row ∷ [])) env'
    unfolding fetch_rest
    fetch_rest_step fuel results env env' {row} e =
        let r = ap (λ p. p.0) e in
        let s = ap (λ p. p.1) e in
        rw (r, fetch_rest) (ap (fetch_rest L fuel (results ++ (row ∷ []))) s)

    fetch_rows-take :
        (size : ℕ) (results : List Row) (env : Env P) (rows : List Row)
        → pending env.cursor ≡ rows
        → env.cursor.paging_state ≡ none
        → ((fetch_rows L size results env).0 ≡ ok (results ++ take size rows))
          × (pending (fetch_rows L size results env).1.cursor ≡ drop size rows)
    unfolding fetch_rows
    fetch_rows-take zero results env rows e unpaged = (ap ok (sym (append-nil results)), e)
    fetch_rows-take (suc size) results env [] e unpaged =
        rw (fetch_rows_stop size results env env (fetchone-none env e unpaged))
          (ap ok (sym (append-nil results)), e)
    fetch_rows-take (suc size) results env (row ∷ rows) e unpaged =
        let (same, left) =
          fetch_rows-take size (results ++ (row ∷ [])) (with_cursor (advance 1) env) rows
            (pending-advance env e) unpaged in
        rw (fetch_rows_step size results env (with_cursor (advance 1) env) (fetchone-some env e))
          (same ∙ simp append_assoc, left)

    fetch_rest-all :
        (fuel : ℕ) (results : List Row) (env : Env P) (rows : List Row)
        → pending env.cursor ≡ rows
        → env.cursor.paging_state ≡ none
        → length rows < fuel
        → ((fetch_rest L fuel results env).0 ≡ ok (results ++ rows))
          × (pending (fetch_rest L fuel results env).1.cursor ≡ [])
    unfolding fetch_rest
    fetch_rest-all zero results env rows e unpaged h = absurd (omega (arith, h))
    fetch_rest-all (suc fuel) results env [] e unpaged h =
        rw (fetch_rest_stop fuel results env env (fetchone-none env e unpaged))
          (ap ok (sym (append-nil results)), e)
    fetch_rest-all (suc fuel) results env (row ∷ rows) e unpaged h =
        let (same, left) =
          fetch_rest-all fuel (results ++ (row ∷ [])) (with_cursor (advance 1) env) rows
            (pending-advance env e) unpaged (omega (arith, h)) in
        rw (fetch_rest_step fuel results env (with_cursor (advance 1) env) (fetchone-some env e))
          (same ∙ simp append_assoc, left)

-- The number of rows that `fetchmany` asks for.
abbrev pub wanted : {P : Platform} → Option ℕ → Env P → ℕ
wanted none env = env.cursor.arraysize
wanted (some size) env = size

-- On a cursor without paging state, fetchmany returns the first pending rows, as many as asked for
-- (the array size by default) or as there are, and leaves the others pending.
pub fetchmany-pending :
    {P : Platform} (L : Stdlib) (size : Option ℕ) (env : Env P)
    → env.cursor.paging_state ≡ none
    → ((fetchmany L size env).0 ≡ ok (take (wanted size env) (pending env.cursor)))
      × (pending (fetchmany L size env).1.cursor ≡ drop (wanted size env) (pending env.cursor))
unfolding fetchmany
fetchmany-pending L none env unpaged =
    fetch_rows-take L env.cursor.arraysize [] env (pending env.cursor) refl unpaged
fetchmany-pending L (some size) env unpaged =
    fetch_rows-take L size [] env (pending env.cursor) refl unpaged

-- On a cursor without paging state, fetchall ends once it is given more rounds than there are
-- pending rows, returns exactly the pending rows in their order, and leaves none pending.
pub fetchall-pending :
    {P : Platform} (L : Stdlib) (fuel : ℕ) (env : Env P)
    → env.cursor.paging_state ≡ none
    → length (pending env.cursor) < fuel
    → ((fetchall L fuel env).0 ≡ ok (pending env.cursor))
      × (pending (fetchall L fuel env).1.cursor ≡ [])
unfolding fetchall
fetchall-pending L fuel env unpaged enough =
    fetch_rest-all L fuel [] env (pending env.cursor) refl unpaged enough
