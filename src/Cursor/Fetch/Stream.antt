-- ===== src/Cursor/Fetch/Stream.antt =====
-- From `fetchone` to any sequence of fetch calls on `AuroraDataAPICursor` of __init__.py.
use mathlib.Core.List.{append-nil, append_assoc}
use aurora_data_api.Base.{
  ◌⊎◌, inl, inr, ℕ, zero, suc, ◌<◌, ◌≤◌, ◌≡◌, refl, sym, ap, ◌∙◌, some, List, [], ◌∷◌, ◌++◌, arith,
  length, take, drop, length-drop,
}
use aurora_data_api.Base.Exec.{Result, Exec, ok, ◌>>=◌, raised}
use aurora_data_api.Value.{Stdlib}
use aurora_data_api.Errors.Classes.{Exn}
use aurora_data_api.Platform.{Platform}
use aurora_data_api.Env.{Row, Env}
use aurora_data_api.Cursor.Fetch.{fetchone, fetchmany, fetchall, fetch_rows, fetch_rest}
use aurora_data_api.Cursor.Fetch.Rows.{
  fetch_rows_stop, fetch_rows_step, fetch_rest_stop, fetch_rest_step,
}
use aurora_data_api.Source.{
  Fetch, one, many, all, taken, left, RowSource, row_list, head, head_list,
}

-- States in which `fetchone` hands out the rows of a list, or raises, if `F`.
pub record RowStream (P : Platform) (L : Stdlib) (F : Type 0) : Type 1 where
  pub rows : Env P → List Row
  pub Ready : Env P → Type 0
  pub next :
      (env : Env P)
      → Ready env
      → ((env' : Env P) × (fetchone L env ≡ (ok (head (rows env)), env'))
          × (rows env' ≡ drop 1 (rows env))
          × Ready env')
        ⊎ (F × (e : Exn) × (env' : Env P) × (fetchone L env ≡ (raised e, env')))

module _ {P : Platform} (L : Stdlib) where
  -- The fetch methods, `fetchall` with a number of rounds.
  unfoldable pub fetch : ℕ → Fetch → Exec Exn (Env P) (List Row)
  fetch fuel one = fetchone L >>= λ row. λ env. (ok (row_list row), env)
  fetch fuel (many size) = fetchmany L (some size)
  fetch fuel all = fetchall L fuel

  fetch_rows_raised :
      (size : ℕ) (results : List Row) (env env' : Env P) (e : Exn)
      → fetchone L env ≡ (raised e, env')
      → fetch_rows L (suc size) results env ≡ (raised e, env')
  unfolding fetch_rows
  fetch_rows_raised size results env env' e raises =
      let r = ap (λ p. p.0) raises in
      let s = ap (λ p. p.1) raises in rw (r, fetch_rows) (ap (λ env'. (raised e, env')) s)

  fetch_rest_raised :
      (fuel : ℕ) (results : List Row) (env env' : Env P) (e : Exn)
      → fetchone L env ≡ (raised e, env')
      → fetch_rest L (suc fuel) results env ≡ (raised e, env')
  unfolding fetch_rest
  fetch_rest_raised fuel results env env' e raises =
      let r = ap (λ p. p.0) raises in
      let s = ap (λ p. p.1) raises in rw (r, fetch_rest) (ap (λ env'. (raised e, env')) s)

  module _ {F : Type 0} (stream : RowStream P L F) where
    open stream use {rows, Ready, next}

    -- What a method hands out, and the rows and the state it leaves; or what it raises.
    abbrev pub Hands : List Row → List Row → Result Exn (List Row) × Env P → Type 0
    Hands out rest r =
        ((env' : Env P) × (r ≡ (ok out, env')) × (rows env' ≡ rest) × Ready env')
        ⊎ (F × (e : Exn) × (env' : Env P) × (r ≡ (raised e, env')))

    same-Hands :
        {out out' rest rest' : List Row} {r r' : Result Exn (List Row) × Env P}
        → r ≡ r'
        → out ≡ out'
        → rest ≡ rest'
        → Hands out' rest' r'
        → Hands out rest r
    same-Hands er eo es (inl (env', hands, left, ready)) =
        inl (env', er ∙ hands ∙ ap (λ l. (ok l, env')) (sym eo), left ∙ sym es, ready)
    same-Hands er eo es (inr (why, e, env', raises)) = inr (why, e, env', er ∙ raises)

    fetch_rows-Hands :
        (size : ℕ) (results l : List Row) (env : Env P)
        → Ready env
        → rows env ≡ l
        → Hands (results ++ take size l) (drop size l) (fetch_rows L size results env)
    unfolding fetch_rows
    fetch_rows-Hands zero results l env ready e =
        inl (env, ap (λ r. (ok r, env)) (sym (append-nil results)), e, ready)
    fetch_rows-Hands (suc size) results [] env ready e = elim (next env ready) [
      | inr (why, x, env', raises) ↦
          inr (why, x, env', fetch_rows_raised size results env env' x raises)
      | inl (env', popped, rest, ready') ↦ inl (
        env',
        fetch_rows_stop L size results env env' (popped ∙ ap (λ l. (ok (head l), env')) e)
            ∙ ap (λ r. (ok r, env')) (sym (append-nil results)),
        rest ∙ ap (drop 1) e,
        ready',
      )
    ]
    fetch_rows-Hands (suc size) results (row ∷ l) env ready e = elim (next env ready) [
      | inr (why, x, env', raises) ↦
          inr (why, x, env', fetch_rows_raised size results env env' x raises)
      | inl (env', popped, rest, ready') ↦
          same-Hands
            (fetch_rows_step L size results env env' (popped ∙ ap (λ l'. (ok (head l'), env')) e))
            (sym (append_assoc results (row ∷ []) (take size l))) refl
            (fetch_rows-Hands size (results ++ (row ∷ [])) l env' ready' (rest ∙ ap (drop 1) e))
    ]

    fetch_rest-Hands :
        (fuel : ℕ) (results l : List Row) (env : Env P)
        → Ready env
        → rows env ≡ l
        → length l < fuel
        → Hands (results ++ l) [] (fetch_rest L fuel results env)
    fetch_rest-Hands zero results l env ready e h = absurd (omega (arith, h))
    fetch_rest-Hands (suc fuel) results [] env ready e h = elim (next env ready) [
      | inr (why, x, env', raises) ↦
          inr (why, x, env', fetch_rest_raised fuel results env env' x raises)
      | inl (env', popped, rest, ready') ↦ inl (
        env',
        fetch_rest_stop L fuel results env env' (popped ∙ ap (λ l. (ok (head l), env')) e)
            ∙ ap (λ r. (ok r, env')) (sym (append-nil results)),
        rest ∙ ap (drop 1) e,
        ready',
      )
    ]
    fetch_rest-Hands (suc fuel) results (row ∷ l) env ready e h = elim (next env ready) [
      | inr (why, x, env', raises) ↦
          inr (why, x, env', fetch_rest_raised fuel results env env' x raises)
      | inl (env', popped, rest, ready') ↦
          same-Hands
            (fetch_rest_step L fuel results env env' (popped ∙ ap (λ l'. (ok (head l'), env')) e))
            (sym (append_assoc results (row ∷ []) l)) refl
            (fetch_rest-Hands fuel (results ++ (row ∷ [])) l env' ready' (rest ∙ ap (drop 1) e)
              (omega (arith, h)))
    ]

    pub fetch-Hands :
        (fuel : ℕ) (f : Fetch) (env : Env P)
        → Ready env
        → length (rows env) < fuel
        → Hands (taken f (rows env)) (left f (rows env)) (fetch fuel f env)
    unfolding fetch fetchmany fetchall
    fetch-Hands fuel one env ready h = elim (next env ready) [
      | inr (why, x, env', raises) ↦ inr (why, x, env', rw raises refl)
      | inl (env', popped, rest, ready') ↦
          inl (env', rw popped (ap (λ l. (ok l, env')) (head_list (rows env))), rest, ready')
    ]
    fetch-Hands fuel (many size) env ready h = fetch_rows-Hands size [] (rows env) env ready refl
    fetch-Hands fuel all env ready h = fetch_rest-Hands fuel [] (rows env) env ready refl h

    shorter : (f : Fetch) (l : List Row) → length (left f l) ≤ length l
    shorter one l = omega (arith, length-drop 1 l)
    shorter (many size) l = omega (arith, length-drop size l)
    shorter all l = omega arith

    pub step_lem :
        (fuel : ℕ) (f : Fetch) (env : Env P)
        → Ready env × (length (rows env) < fuel)
        → ((env' : Env P) × (fetch fuel f env ≡ (ok (taken f (rows env)), env'))
            × (rows env' ≡ left f (rows env))
            × (Ready env' × (length (rows env') < fuel)))
          ⊎ (F × (e : Exn) × (env' : Env P) × (fetch fuel f env ≡ (raised e, env')))
    step_lem fuel f env (ready, h) = elim (fetch-Hands fuel f env ready h) [
      | inr fails ↦ inr fails
      | inl (env', hands, rest, ready') ↦
          inl (env', hands, rest, (ready', omega (arith, shorter f (rows env), ap length rest, h)))
    ]

    -- The cursor as a source of rows, if `fetchall` is given more rounds than there are rows.
    unfoldable pub stream_source : (fuel : ℕ) → RowSource (fetch fuel) F
    stream_source fuel = record {
      rows = rows;
      Ready = λ env. Ready env × (length (rows env) < fuel);
      step = λ f env h. step_lem fuel f env h;
    }
