-- ===== src/Cursor/Fetch/Server/Pages.antt =====
-- `_fetch_next_page_into_buffer` of __init__.py against a server that keeps the rows of its cursor.
use mathlib.Core.Path.{subst}
use aurora_data_api.Errors.Translate.{translate_database_error}
use aurora_data_api.Base.{
  ◌&&◌, ◌⊎◌, inl, inr, ℕ, zero, suc, ◌+◌, ◌/◌, ◌<◌, ◌≤◌, ◌≡◌, refl, sym, ◌∙◌, true, false, Option,
  none, some, List, take, drop, length, arith, max, Bool-cases, inl, inr, ltb, Bool, ap,
}
use aurora_data_api.Base.Text.{codes, Text}
use aurora_data_api.Base.Exec.{diverged, Ends, Result-cases, Result, ok, raised, Exec, Ends}
use aurora_data_api.Value.{Stdlib}
use aurora_data_api.Convert.Columns.{ColumnDescription}
use aurora_data_api.Errors.Classes.{Exn, is_instance, unsupported_result}
use aurora_data_api.Platform.{Response, Platform}
use aurora_data_api.Env.{Row, PagingState, Env}
use aurora_data_api.Statements.{
  declare_stmt, fetch_stmt, move_stmt, with_sql, render_response, render_records, render_with,
}
use aurora_data_api.Statements.Slices.{render_records-take, render_records-drop}
use aurora_data_api.Cursor.{
  set_buffer, with_cursor, negated, is_oversize, scroll, store_page, fetch_failed, fetch_loop,
  fetch_next_page,
}
use aurora_data_api.Connection.{is_database_exception, raise_translated}
use aurora_data_api.Cursor.Paging.{Responds}
use aurora_data_api.Cursor.Fetch.Server.{Serves, page, described, describe_page-described}

-- Whether a smaller page is tried after this exception.
abbrev pub is_halved : ℕ → Exn → Bool
is_halved n e = is_instance e unsupported_result && (is_oversize e && ltb 1 n)

-- The page size of a server-side cursor of a server, in the cursor.
module _ {P : Platform} (L : Stdlib) (server : Serves P) where
  open server use {execute_statement_args, columns, records, position}

  abbrev pub paging : Text → ℕ → PagingState
  paging name n = record {
    execute_statement_args =
        with_sql (declare_stmt name execute_statement_args.sql) execute_statement_args;
    records_per_page = n;
    pg_cursor_name = name;
  }

  abbrev pub paged : Text → ℕ → Env P → Env P
  paged name n env = with_cursor (λ c. record c { paging_state = some (paging name n) }) env

  -- A cursor with this description after its next page, and an array size that is not zero.
  abbrev pub IsUsable : Option (List ColumnDescription) → Env P → Type 0
  IsUsable d env = (described columns env.cursor.description ≡ d) × (1 ≤ env.cursor.arraysize)

  -- Why a page of at most `largest` records may not come; `F` is what that means to the client, and
  -- empty where it never happens. Either a FETCH from an existing cursor raises, and the driver does not
  -- try a smaller page; or it tries one, and the MOVE back raises.
  pub record Risk (F : Type 0) (largest : ℕ) : Type 0 where
    pub gives_up :
        (name : Text) (n p : ℕ) (w w' : P.State) (e : Exn)
        → 1 ≤ n
        → n ≤ largest
        → position name w ≡ some p
        → P.execute_statement (with_sql (fetch_stmt n name) execute_statement_args) w
          ≡ (raised e, w')
        → is_halved n e ≡ false
        → F
    pub stuck :
        (name : Text) (n p : ℕ) (w w' w'' : P.State) (e e' : Exn)
        → n ≤ largest
        → position name w ≡ some p
        → P.execute_statement (with_sql (fetch_stmt n name) execute_statement_args) w
          ≡ (raised e, w')
        → is_halved n e ≡ true
        → P.execute_statement
            (with_sql (move_stmt (codes "relative") (negated n) name) execute_statement_args)
            w'
          ≡ (raised e', w'')
        → F

  module _ (d : Option (List ColumnDescription)) (rows : List Row)
      (renders : render_records L d records ≡ ok rows) where
    -- After a page of `m` records from position `p` on.
    abbrev pub loaded : Text → ℕ → ℕ → P.State → Env P → Env P
    loaded name m p w env = record env {
      world = w;
      cursor = record env.cursor {
        description = d;
        paging_state = some (paging name m);
        buffer = some (take m (drop p rows));
        buffer_idx = 0;
      };
    }

    stored :
        (m p : ℕ) (env : Env P)
        → described columns env.cursor.description ≡ d
        → store_page L (page columns (take m (drop p records))) env ≡ (
          ok tt,
          with_cursor
              (λ c. set_buffer (some (take m (drop p rows))) (record c { description = d }))
              env,
        )
    unfolding store_page render_response render_with
    stored m p env e =
        let converted =
          render_records-take L d m (drop p records) (drop p rows)
            (render_records-drop L d p records rows renders) in
        rw (describe_page-described columns env.cursor, e, converted) refl

    -- A page that the loop has loaded, or what it raises, if `F`.
    abbrev pub Loads : Type 0 → ℕ → Text → ℕ → Env P → Result Exn (Unit {0}) × Env P → Type 0
    Loads F largest name p env r =
        ((m : ℕ) × (w : P.State) × (1 ≤ m)
          × (m ≤ largest)
          × (position name w ≡ some (p + length (take m (drop p records))))
          × (r ≡ (ok tt, loaded name m p w env)))
        ⊎ (F × (e : Exn) × (env' : Env P) × (r ≡ (raised e, env')) × IsUsable d env')

    load_returned :
        (fuel n p : ℕ) (name : Text) (env : Env P) (w : P.State) (response : Response)
        → 1 ≤ n
        → position name env.world ≡ some p
        → described columns env.cursor.description ≡ d
        → P.execute_statement (with_sql (fetch_stmt n name) execute_statement_args) env.world
          ≡ (ok response, w)
        → (position name w ≡ some (p + length (take n (drop p records))))
          × (fetch_loop L (suc fuel) (paged name n env) ≡ (ok tt, loaded name n p w env))
    unfolding fetch_loop
    load_returned fuel n p name env w response least at e answer =
        let (same, moved) = server.returns name n p env.world w response least at answer in
        (moved, rw (answer, same) (stored n p (paged name n (record env { world = w })) e))

    fetch_loop-failed :
        (fuel n : ℕ) (name : Text) (env : Env P) (x : Exn) (w : P.State)
        → P.execute_statement (with_sql (fetch_stmt n name) execute_statement_args) env.world
          ≡ (raised x, w)
        → fetch_loop L (suc fuel) (paged name n env)
          ≡ fetch_failed L
              (λ env'. fetch_loop L fuel env')
              n
              x
              (paged name n (record env { world = w }))
    unfolding fetch_loop
    fetch_loop-failed fuel n name env x w refused = rw refused refl

    module _ (again : Exec Exn (Env P) (Unit {0})) (n : ℕ) (x : Exn) where
      -- Whether a smaller page is tried.
      abbrev smaller : Bool
      smaller = is_instance x unsupported_result && (is_oversize x && ltb 1 n)

      fetch_failed_raises :
          (env : Env P)
          → smaller ≡ false
          → IsUsable d env
          → (e : Exn) × (env' : Env P) × (fetch_failed L again n x env ≡ (raised e, env'))
            × IsUsable d env'
      unfolding fetch_failed raise_translated
      fetch_failed_raises env gives_up usable =
          elim (Bool-cases (is_instance x unsupported_result)) [
            | inl unsupported ↦
                let other : is_oversize x && ltb 1 n ≡ false = rw unsupported at gives_up in
                (x, env, rw (unsupported, other) refl, usable)
            | inr other ↦ elim (Bool-cases (is_database_exception x)) [
              | inl database ↦
                  let (e, f) = translate_database_error x env.factories in
                  (e, record env { factories = f }, rw (other, database) refl, usable)
              | inr neither ↦ (x, env, rw (other, neither) refl, usable)
            ]
          ]

      fetch_failed-moved :
          (name : Text) (env : Env P) (w : P.State) (response : Response)
          → smaller ≡ true
          → P.execute_statement
              (with_sql (move_stmt (codes "relative") (negated n) name) execute_statement_args)
              env.world
            ≡ (ok response, w)
          → fetch_failed L again n x (paged name n env)
            ≡ again (
                paged name
                  (max 1 (n / 2))
                  (with_cursor (set_buffer none) (record env { world = w })))
      unfolding fetch_failed scroll
      fetch_failed-moved name env w response try moved =
          let unsupported : is_instance x unsupported_result ≡ true = ground arith in
          let oversize : is_oversize x && ltb 1 n ≡ true = ground arith in
          rw (unsupported, oversize, moved) refl

      fetch_failed-stuck :
          (name : Text) (env : Env P) (w : P.State) (e : Exn)
          → smaller ≡ true
          → P.execute_statement
              (with_sql (move_stmt (codes "relative") (negated n) name) execute_statement_args)
              env.world
            ≡ (raised e, w)
          → fetch_failed L again n x (paged name n env)
            ≡ (raised e, paged name n (record env { world = w }))
      unfolding fetch_failed scroll
      fetch_failed-stuck name env w e try stuck =
          let unsupported : is_instance x unsupported_result ≡ true = ground arith in
          let oversize : is_oversize x && ltb 1 n ≡ true = ground arith in
          rw (unsupported, oversize, stuck) refl

    halve : (n : ℕ) → 1 < n → (1 ≤ max 1 (n / 2)) × (max 1 (n / 2) < n)
    halve n h = (omega arith, omega (arith, h))

    parts : (a b : Bool) (n : ℕ) → a && (b && ltb 1 n) ≡ true → (a ≡ true) × (b ≡ true) × (1 < n)
    parts true true n h = (refl, refl, ground arith)
    parts true false n h = absurd (ground arith)
    parts false b n h = absurd (ground arith)

    module _ (responds : Responds P) {F : Type 0} (largest : ℕ) (risk : Risk F largest) where
      -- The next round, where it is given.
      abbrev Again : ℕ → Type 0
      Again fuel =
          (n p : ℕ) (name : Text) (env : Env P)
          → n ≤ fuel
          → 1 ≤ n
          → n ≤ largest
          → position name env.world ≡ some p
          → IsUsable d env
          → Loads F largest name p env (fetch_loop L (suc fuel) (paged name n env))

      move_and_load :
          (fuel n p : ℕ) (name : Text) (env : Env P) (x : Exn) (w : P.State)
          → n ≤ suc fuel
          → n ≤ largest
          → smaller (λ env'. fetch_loop L (suc fuel) env') n x ≡ true
          → 1 < n
          → (position name w ≡ none) ⊎ (position name w ≡ some (p + n))
          → IsUsable d env
          → ((e : Exn) (w' : P.State)
              → P.execute_statement
                  (with_sql (move_stmt (codes "relative") (negated n) name) execute_statement_args)
                  w
                ≡ (raised e, w')
              → F)
          → Again fuel
          → (r : Result Exn Response)
          → (P.execute_statement
              (with_sql (move_stmt (codes "relative") (negated n) name) execute_statement_args)
              w).0
            ≡ r
          → Ends r
          → Loads F largest name p env (
              fetch_failed L
                (λ env'. fetch_loop L (suc fuel) env')
                n
                x
                (paged name n (record env { world = w })))
      move_and_load fuel n p name env x w enough most try big left usable why again diverged e
            ends =
          absurd ends
      move_and_load fuel n p name env x w enough most try big left usable why again (raised y) e
            ends =
          let w' =
            (P.execute_statement
              (with_sql (move_stmt (codes "relative") (negated n) name) execute_statement_args)
              w).1 in
          inr (
            why y w' (ap (λ r. (r, w')) e),
            y,
            paged name n (record env { world = w' }),
            fetch_failed-stuck (λ env'. fetch_loop L (suc fuel) env') n x name
                (record env { world = w }) w' y try (ap (λ r. (r, w')) e),
            usable,
          )
      move_and_load fuel n p name env x w enough most try big left usable why again (ok response) e
            ends =
          let w' =
            (P.execute_statement
              (with_sql (move_stmt (codes "relative") (negated n) name) execute_statement_args)
              w).1 in
          let moved : P.execute_statement
                (with_sql (move_stmt (codes "relative") (negated n) name) execute_statement_args) w
              ≡ (ok response, w') =
            ap (λ r. (r, w')) e in
          elim left [
            | inl gone ↦ absurd (server.absent name n w w' response (omega (arith, big)) gone moved)
            | inr passed ↦
                let (half, less) = halve n big in
                subst (Loads F largest name p env)
                  (sym (
                    fetch_failed-moved (λ env'. fetch_loop L (suc fuel) env') n x name
                      (record env { world = w }) w' response try moved))
                  (again (max 1 (n / 2)) p name
                    (with_cursor (set_buffer none) (record env { world = w' }))
                    (omega (arith, less, enough)) half (omega (arith, less, most))
                    (server.moves name n p w w' response (omega (arith, big)) passed moved) usable)
          ]

      load_failed :
          (fuel n p : ℕ) (name : Text) (env : Env P) (x : Exn) (w : P.State)
          → n ≤ suc fuel
          → 1 ≤ n
          → n ≤ largest
          → position name env.world ≡ some p
          → IsUsable d env
          → Again fuel
          → P.execute_statement (with_sql (fetch_stmt n name) execute_statement_args) env.world
            ≡ (raised x, w)
          → Loads F largest name p env (fetch_loop L (suc (suc fuel)) (paged name n env))
      load_failed fuel n p name env x w enough least most at usable again refused =
          let again_loop = λ (env' : Env P). fetch_loop L (suc fuel) env' in
          let failed = fetch_loop-failed (suc fuel) n name env x w refused in
          elim (Bool-cases (smaller again_loop n x)) [
            | inr gives_up ↦
                let (e, env', raises, usable') =
                  fetch_failed_raises again_loop n x (paged name n (record env { world = w }))
                    gives_up usable in
                inr (
                  risk.gives_up name n p env.world w x least most at refused gives_up,
                  e,
                  env',
                  failed ∙ raises,
                  usable',
                )
            | inl try ↦
                let (unsupported, oversize, big) =
                  parts (is_instance x unsupported_result) (is_oversize x) n try in
                subst (Loads F largest name p env) (sym failed) (
                  move_and_load fuel n p name env x w enough most try big
                    (server.refuses name n p env.world w x least at refused unsupported oversize)
                    usable
                    (λ e w' moves. risk.stuck name n p env.world w w' x e most at refused try moves)
                    again
                    (P.execute_statement
                      (with_sql (move_stmt (codes "relative") (negated n) name)
                        execute_statement_args)
                      w).0
                    refl (responds _ w))
          ]

      load_loop : (fuel : ℕ) → Again fuel
      load_loop zero n p name env enough least most at usable =
          absurd (omega (arith, enough, least))
      load_loop (suc fuel) n p name env enough least most at usable =
          let result =
            P.execute_statement (with_sql (fetch_stmt n name) execute_statement_args) env.world in
          elim (Result-cases result.0) [
            | inl (response, e) ↦
                let (moved, same) =
                  load_returned (suc fuel) n p name env result.1 response least at usable.0
                    (ap (λ r. (r, result.1)) e) in
                inl (n, result.1, least, most, moved, same)
            | inr (inl (x, e)) ↦
                load_failed fuel n p name env x result.1 enough least most at usable
                  (load_loop fuel) (ap (λ r. (r, result.1)) e)
            | inr (inr e) ↦ absurd (
                subst Ends e
                  (responds (with_sql (fetch_stmt n name) execute_statement_args) env.world))
          ]

      -- Suppose that a cursor is paged on an existing cursor of a server on which, as Serves says,
      -- a DECLARE, FETCH or MOVE of the cursor that returns does what it is asked for, and a FETCH
      -- that is refused for its size has either deleted the cursor or passed as many records as it
      -- asked for, with a page size of at least one and at most a given bound and an array size of
      -- at least one, that every call of execute_statement returns or raises, and that all rows
      -- can be converted with the description that the cursor has after a page. Then loading the
      -- next page ends in one of two ways. Either it succeeds, for some page size m between one
      -- and the bound: the buffer then holds the next m rows from the position of the cursor
      -- (fewer at the end), from its first row on, the page size is m, and the server's position
      -- has passed exactly the records of these rows. Or it raises, which happens only if, in some
      -- state, the server raises for a FETCH from an existing cursor, other than by refusing a
      -- page of more than one record for its size, or for the MOVE back after such a refusal,
      -- where the FETCH is of at least one record and within the bound.
      pub fetch_next_page-Loads :
          (n p : ℕ) (name : Text) (env : Env P)
          → 1 ≤ n
          → n ≤ largest
          → position name env.world ≡ some p
          → IsUsable d env
          → Loads F largest name p env (fetch_next_page L (paged name n env))
      unfolding fetch_next_page
      fetch_next_page-Loads n p name env least most at usable =
          load_loop n n p name env (omega arith) least most at usable
