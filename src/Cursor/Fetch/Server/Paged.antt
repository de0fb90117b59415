-- ===== src/Cursor/Fetch/Server/Paged.antt =====
-- A paged cursor of __init__.py hands out the rows that the server still has, whatever the sizes of the
-- pages.
use mathlib.Core.Path.{subst}
use aurora_data_api.Base.Text.{Text}
use aurora_data_api.Cursor.Paging.{Responds}
use aurora_data_api.Base.{
  ◌⊎◌, inl, inr, ℕ, zero, suc, ◌+◌, ◌<◌, ◌≤◌, ◌≡◌, refl, sym, ap, ◌∙◌, Option, none, some, List, [],
  ◌∷◌, ◌++◌, take, drop, length, arith, drop-add,
}
use aurora_data_api.Base.Exec.{raised, Result, ok}
use aurora_data_api.Value.{Stdlib}
use aurora_data_api.Convert.Columns.{ColumnDescription}
use aurora_data_api.Errors.Classes.{Exn}
use aurora_data_api.Platform.{Platform}
use aurora_data_api.Env.{Row, PagingState, Env}
use aurora_data_api.Source.{Fetch, head, replay, run, run-Refines}
use aurora_data_api.Statements.{render_records}
use aurora_data_api.Statements.Slices.{
  render_records-take, render_records-drop, length-render_records,
}
use aurora_data_api.Cursor.{with_cursor, fetch_next_page, pop_buffered_row}
use aurora_data_api.Cursor.Fetch.{fetchone, after_pop, fetchone_unbuffered}
use aurora_data_api.Cursor.Fetch.Rows.{
  pending, advance, pop_some, pop_none, pending-advance, fetchone-some,
}
use aurora_data_api.Cursor.Fetch.Stream.{RowStream, fetch, stream_source}
use aurora_data_api.Cursor.Fetch.Server.{described_again, Serves, described}
use aurora_data_api.Cursor.Fetch.Server.Pages.{
  Risk, IsUsable, paging, paged, loaded, fetch_next_page-Loads,
}

module _ {A : Type 0} where
  take-none : (n : ℕ) (l : List A) → 1 ≤ n → take n l ≡ [] → l ≡ []
  take-none zero l h e = absurd (omega (arith, h))
  take-none (suc n) [] h e = refl
  take-none (suc n) (x ∷ l) h e = absurd (cc)

  take-rejoined : (n : ℕ) (l : List A) → take n l ++ drop (length (take n l)) l ≡ l
  take-rejoined zero l = refl
  take-rejoined (suc n) [] = refl
  take-rejoined (suc n) (x ∷ l) = ap (◌∷◌ x) (take-rejoined n l)

module _ {P : Platform} (L : Stdlib) where
  fetchone-page :
      (env env' : Env P) (state : PagingState)
      → pending env.cursor ≡ []
      → env.cursor.paging_state ≡ some state
      → fetch_next_page L env ≡ (ok tt, env')
      → fetchone L env ≡ pop_buffered_row env'
  unfolding fetchone after_pop fetchone_unbuffered
  fetchone-page env env' state e is_paged loads =
      rw (pop_none env e) (ap (λ s. fetchone_unbuffered L s env) is_paged ∙ rw loads refl)

  fetchone-raises :
      (env env' : Env P) (state : PagingState) (x : Exn)
      → pending env.cursor ≡ []
      → env.cursor.paging_state ≡ some state
      → fetch_next_page L env ≡ (raised x, env')
      → fetchone L env ≡ (raised x, env')
  unfolding fetchone after_pop fetchone_unbuffered
  fetchone-raises env env' state x e is_paged raises =
      rw (pop_none env e) (ap (λ s. fetchone_unbuffered L s env) is_paged ∙ rw raises refl)

  module _ (server : Serves P) (d : Option (List ColumnDescription)) (rows : List Row)
      (renders : render_records L d server.records ≡ ok rows) where
    open server use {columns, records, position}

    -- The rows that the server still has for a cursor.
    abbrev pub rows_after : Option ℕ → List Row
    rows_after none = []
    rows_after (some p) = drop p rows

    abbrev pub rows_ahead : Option PagingState → P.State → List Row
    rows_ahead none w = []
    rows_ahead (some state) w = rows_after (position state.pg_cursor_name w)

    -- The rows that are left: those of the page, and those that the server has.
    abbrev pub rows_left : Env P → List Row
    rows_left env = pending env.cursor ++ rows_ahead env.cursor.paging_state env.world

    -- A cursor that is paged on a cursor that the server has, with a page size in these bounds, and the
    -- description that the rows are converted with.
    abbrev pub IsPaged : ℕ → Env P → Type 0
    IsPaged largest env =
        (n : ℕ) × (name : Text) × (p : ℕ) × (env.cursor.paging_state
          ≡ some (paging L server name n))
        × (1 ≤ n)
        × (n ≤ largest)
        × (position name env.world ≡ some p)
        × IsUsable L server d env

    rows_ahead-some :
        (name : Text) (n p : ℕ) (state : Option PagingState) (w : P.State)
        → state ≡ some (paging L server name n)
        → position name w ≡ some p
        → rows_ahead state w ≡ drop p rows
    rows_ahead-some name n p state w e at = ap (λ s. rows_ahead s w) e ∙ ap rows_after at

    pub rows_left-loaded :
        (name : Text) (m p : ℕ) (w : P.State) (env : Env P)
        → position name w ≡ some (p + length (take m (drop p records)))
        → rows_left (loaded L server d rows renders name m p w env) ≡ drop p rows
    rows_left-loaded name m p w env at =
        let same : length (take m (drop p rows)) ≡ length (take m (drop p records)) =
          length-render_records L d (take m (drop p records)) (take m (drop p rows)) (
            render_records-take L d m (drop p records) (drop p rows)
              (render_records-drop L d p records rows renders)) in
        ap (λ q. take m (drop p rows) ++ rows_after q) at
        ∙ ap (λ k. take m (drop p rows) ++ drop (p + k) rows) (sym same)
        ∙ ap (λ l. take m (drop p rows) ++ l)
            (sym (drop-add p (length (take m (drop p rows))) rows))
        ∙ take-rejoined m (drop p rows)

    pub still-IsUsable :
        (env env' : Env P)
        → env'.cursor.description ≡ d
        → env'.cursor.arraysize ≡ env.cursor.arraysize
        → IsUsable L server d env
        → IsUsable L server d env'
    still-IsUsable env env' e size (same, least) = (
      ap (described columns) (e ∙ sym same) ∙ described_again columns env.cursor.description ∙ same,
      omega (arith, size, least),
    )

    module _ (responds : Responds P) {F : Type 0} (largest : ℕ)
        (risk : Risk L server F largest) where
      abbrev Pops : Env P → Result Exn (Option Row) × Env P → Type 0
      Pops env r =
          ((env' : Env P) × (r ≡ (ok (head (rows_left env)), env'))
            × (rows_left env' ≡ drop 1 (rows_left env))
            × IsPaged largest env')
          ⊎ (F × (e : Exn) × (env' : Env P) × (r ≡ (raised e, env')))

      pop_buffered_row-Pops :
          (env : Env P) {row : Row} {rest : List Row}
          → pending env.cursor ≡ row ∷ rest
          → IsPaged largest env
          → Pops env (pop_buffered_row env)
      pop_buffered_row-Pops env {row} {rest} e is_paged =
          let tail = rows_ahead env.cursor.paging_state env.world in
          inl (
            with_cursor (advance 1) env,
            pop_some env e ∙ ap (λ l. (ok (head (l ++ tail)), with_cursor (advance 1) env)) (sym e),
            ap (λ l. l ++ tail) (pending-advance env e) ∙ ap (λ l. drop 1 (l ++ tail)) (sym e),
            is_paged,
          )

      pop_loaded :
          (l : List Row) (env : Env P)
          → pending env.cursor ≡ l
          → (l ≡ [] → rows_left env ≡ [])
          → IsPaged largest env
          → Pops env (pop_buffered_row env)
      pop_loaded (row ∷ rest) env e none_left is_paged = pop_buffered_row-Pops env e is_paged
      pop_loaded [] env e none_left is_paged =
          let nothing = none_left refl in
          inl (
            env,
            pop_none env e ∙ ap (λ l. (ok (head l), env)) (sym nothing),
            nothing ∙ ap (drop 1) (sym nothing),
            is_paged,
          )

      same_rows :
          (env page_env : Env P) (r : Result Exn (Option Row) × Env P)
          → rows_left page_env ≡ rows_left env
          → Pops page_env r
          → Pops env r
      same_rows env page_env r e (inl (env', popped, rest, is_paged)) =
          inl (env', popped ∙ ap (λ l. (ok (head l), env')) e, rest ∙ ap (drop 1) e, is_paged)
      same_rows env page_env r e (inr fails) = inr fails

      load_and_pop :
          (env : Env P) → pending env.cursor ≡ [] → IsPaged largest env → Pops env (fetchone L env)
      load_and_pop env e (n, name, p, is_paged, least, most, at, usable) =
          let kept : env ≡ paged L server name n env =
            ap (λ s. with_cursor (λ c. record c { paging_state = s }) env) is_paged in
          elim (fetch_next_page-Loads L server d rows renders responds largest risk n p name env
            least most at usable) [
              | inr (why, x, env', raises, _) ↦ inr (
                why,
                x,
                env',
                fetchone-raises env env' (paging L server name n) x e is_paged
                    (ap (fetch_next_page L) kept ∙ raises),
              )
              | inl (m, w, least', most', at', loads) ↦
                  let page_env = loaded L server d rows renders name m p w env in
                  let left : rows_left page_env ≡ drop p rows =
                    rows_left-loaded name m p w env at' in
                  let before : rows_left env ≡ drop p rows =
                    ap (λ l. l ++ rows_ahead env.cursor.paging_state env.world) e
                    ∙ rows_ahead-some name n p env.cursor.paging_state env.world is_paged at in
                  subst (Pops env)
                    (sym (
                      fetchone-page env page_env (paging L server name n) e is_paged
                        (ap (fetch_next_page L) kept ∙ loads)))
                    (same_rows env page_env (pop_buffered_row page_env) (left ∙ sym before) (
                      pop_loaded (take m (drop p rows)) page_env refl
                        (λ nothing. left ∙ take-none m (drop p rows) least' nothing)
                        (
                          m,
                          name,
                          p + length (take m (drop p records)),
                          refl,
                          least',
                          most',
                          at',
                          still-IsUsable env page_env refl refl usable,
                        )))
            ]

      pub fetchone-Pops :
          (l : List Row) (env : Env P)
          → pending env.cursor ≡ l
          → IsPaged largest env
          → Pops env (fetchone L env)
      fetchone-Pops [] env e is_paged = load_and_pop env e is_paged
      fetchone-Pops (row ∷ rest) env e is_paged =
          subst (Pops env) (pop_some env e ∙ sym (fetchone-some L env e))
            (pop_buffered_row-Pops env e is_paged)

      unfoldable pub paged_stream : RowStream P L F
      paged_stream = record {
        rows = rows_left;
        Ready = IsPaged largest;
        next = λ env is_paged. fetchone-Pops (pending env.cursor) env refl is_paged;
      }

      -- What the fetch methods hand out, or raise.
      abbrev pub Replays : List Fetch → List Row → Result Exn (List (List Row)) → Type 0
      Replays calls l r = (r ≡ ok (replay calls l)) ⊎ (F × (e : Exn) × (r ≡ raised e))

      pub run-Replays :
          (fuel : ℕ) (calls : List Fetch) (env : Env P)
          → IsPaged largest env
          → length (rows_left env) < fuel
          → Replays calls (rows_left env) (run (fetch L fuel) calls env).0
      unfolding stream_source paged_stream
      run-Replays fuel calls env is_paged enough =
          elim (run-Refines (fetch L fuel) (stream_source L paged_stream fuel) calls env
            (is_paged, enough)) [
              | inl (env', same, _) ↦ inl (ap (λ p. p.0) same)
              | inr (why, e, env', raises) ↦ inr (why, e, ap (λ p. p.0) raises)
            ]

    -- Suppose that a cursor is paged on an existing cursor of a server on which, as Serves says, a
    -- DECLARE, FETCH or MOVE of the cursor that returns does what it is asked for, and a FETCH
    -- that is refused for its size has either deleted the cursor or passed as many records as it
    -- asked for, with rows of a page left in its buffer or none, that every call of
    -- execute_statement returns or raises, that the server does not raise for a FETCH from an
    -- existing cursor, other than by refusing a page of more than one record for its size, nor for
    -- the MOVE back after such a refusal, where the FETCH is of at least one record and within a
    -- given bound, that the page size is at least one and within this bound and the array size at
    -- least one, that the rows can be converted with the description that the cursor has after a
    -- page, and that fetchall is given more rounds than there are rows left. Then any sequence of
    -- fetchone, fetchmany and fetchall hands out first the rows of the buffer and then those that
    -- the server still has, each once and in order, as a list would, also where pages are refused
    -- and smaller ones are fetched in their place.
    pub paged_replay :
        (responds : Responds P) (largest : ℕ) (risk : Risk L server ⊥ largest) (fuel : ℕ)
        (calls : List Fetch) (env : Env P)
        → IsPaged largest env
        → length (rows_left env) < fuel
        → (run (fetch L fuel) calls env).0 ≡ ok (replay calls (rows_left env))
    paged_replay responds largest risk fuel calls env is_paged enough =
        elim (run-Replays responds largest risk fuel calls env is_paged enough) [
          | inl same ↦ same
          | inr (never, _, _) ↦ absurd never
        ]

    -- Suppose that a cursor is paged on an existing cursor of a server on which, as Serves says, a
    -- DECLARE, FETCH or MOVE of the cursor that returns does what it is asked for, and a FETCH
    -- that is refused for its size has either deleted the cursor or passed as many records as it
    -- asked for, with rows of a page left in its buffer or none, that every call of
    -- execute_statement returns or raises, that the rows can be converted with the description
    -- that the cursor has after a page, that the page size is at least one and at most a given
    -- bound and the array size at least one, and that fetchall is given more rounds than there are
    -- rows left. Then any sequence of fetchone, fetchmany and fetchall either raises or hands out
    -- first the rows of the buffer and then those that the server still has, each once and in
    -- order, as a list would, also where pages are refused and smaller ones are fetched in their
    -- place; it raises only if, in some state, the server raises for a FETCH from an existing
    -- cursor, other than by refusing a page of more than one record for its size, or for the MOVE
    -- back after such a refusal, where the FETCH is of at least one record and within the bound.
    pub paged_replay_or_raise :
        (responds : Responds P) {F : Type 0} (largest : ℕ) (risk : Risk L server F largest)
        (fuel : ℕ) (calls : List Fetch) (env : Env P)
        → IsPaged largest env
        → length (rows_left env) < fuel
        → ((run (fetch L fuel) calls env).0 ≡ ok (replay calls (rows_left env)))
          ⊎ (F × (e : Exn) × ((run (fetch L fuel) calls env).0 ≡ raised e))
    paged_replay_or_raise responds largest risk fuel calls env is_paged enough =
        run-Replays responds largest risk fuel calls env is_paged enough
