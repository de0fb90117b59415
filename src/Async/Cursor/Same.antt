-- ===== src/Async/Cursor/Same.antt =====
-- Where the asynchronous cursor of async_driver.py does what the synchronous one of __init__.py does.
pub mod Pages
use mathlib.Core.Path.{fun_ext}
use aurora_data_api.Base.{
  ℕ, zero, suc, ◌≡◌, refl, ap, ◌∙◌, sym, Bool-cases, inl, inr, Option, none, some, List, [], ◌∷◌,
  ◌++◌,
}
use aurora_data_api.Base.Exec.{Result, Exec, ok, raised, diverged, ◌>>=◌, ◌>>◌, continue}
use aurora_data_api.Value.{Stdlib}
use aurora_data_api.Errors.Classes.{Exn}
use aurora_data_api.Cursor.{has_buffered_row}
use aurora_data_api.Platform.{Platform}
use aurora_data_api.Env.{Row, PagingState, Env}
use aurora_data_api.Cursor as Sync
use aurora_data_api.Cursor.Fetch as SyncFetch
use aurora_data_api.Async.Cursor as Async
use aurora_data_api.Async.Cursor.Fetch as AsyncFetch
use aurora_data_api.Async.Cursor.Same.Pages.{FetchesForward, pop_same, fetch_next_page_same}

-- A round of the loops of `fetchmany` and `fetchall`, after its `fetchone`.
abbrev pub next_row :
    {P : Platform}
    → List Row
    → (List Row → Exec Exn (Env P) (List Row))
    → Result Exn (Option Row) × Env P
    → Result Exn (List Row) × Env P
next_row rows again p = elim p.0 [
  | ok (some row) ↦ again (rows ++ (row ∷ [])) p.1
  | ok none ↦ (ok rows, p.1)
  | raised e ↦ (raised e, p.1)
  | diverged ↦ (diverged, p.1)
]

module _ {P : Platform} where
  pop-paging :
      (env : Env P) → (Sync.pop_buffered_row env).1.cursor.paging_state ≡ env.cursor.paging_state
  unfolding Sync.pop_buffered_row
  pop-paging env = elim (Bool-cases (has_buffered_row env.cursor)) [
    | inl has ↦ rw has refl
    | inr hasnt ↦ rw hasnt refl
  ]

  continue_unpaged :
      (L : Stdlib) (r : Result Exn (Option Row)) (env : Env P)
      → env.cursor.paging_state ≡ none
      → continue r (SyncFetch.after_pop L) env ≡ (r, env)
  unfolding SyncFetch.after_pop SyncFetch.fetchone_unbuffered
  continue_unpaged L (ok (some row)) env e = refl
  continue_unpaged L (ok none) env e = ap (λ p. SyncFetch.fetchone_unbuffered L p env) e
  continue_unpaged L (raised x) env e = refl
  continue_unpaged L diverged env e = refl

module _ {P : Platform} (forward : FetchesForward P) (L : Stdlib) where
  load_and_pop :
      (env : Env P)
      → (Async.fetch_next_page L >> Async.pop_buffered_row) env
        ≡ (Sync.fetch_next_page L >> Sync.pop_buffered_row) env
  load_and_pop env =
      ap (λ (m : Exec Exn (Env P) (Option Row)). (Async.fetch_next_page L >> m) env)
        (fun_ext pop_same)
      ∙ ap (λ (m : Exec Exn (Env P) (Unit {0})). (m >> Sync.pop_buffered_row) env)
          (fun_ext (fetch_next_page_same forward L))

  after_pop_same :
      (row : Option Row) (paging : PagingState) (env : Env P)
      → env.cursor.paging_state ≡ some paging
      → AsyncFetch.after_pop L row env ≡ SyncFetch.after_pop L row env
  unfolding AsyncFetch.after_pop SyncFetch.after_pop SyncFetch.fetchone_unbuffered
  after_pop_same (some row) paging env e = refl
  after_pop_same none paging env e =
      load_and_pop env ∙ sym (ap (λ p. SyncFetch.fetchone_unbuffered L p env) e)

  continue_paged :
      (r : Result Exn (Option Row)) (paging : PagingState) (env : Env P)
      → env.cursor.paging_state ≡ some paging
      → continue r (AsyncFetch.after_pop L) env ≡ continue r (SyncFetch.after_pop L) env
  continue_paged (ok row) paging env e = after_pop_same row paging env e
  continue_paged (raised x) paging env e = refl
  continue_paged diverged paging env e = refl

  next_in_same :
      (paging : Option PagingState) (env : Env P)
      → env.cursor.paging_state ≡ paging
      → AsyncFetch.next_in L paging env ≡ SyncFetch.fetchone L env
  unfolding AsyncFetch.next_in SyncFetch.fetchone
  next_in_same none env e =
      pop_same env
      ∙ sym (
          continue_unpaged L (Sync.pop_buffered_row env).0 (Sync.pop_buffered_row env).1
            (pop-paging env ∙ e))
  next_in_same (some paging) env e =
      ap (λ (m : Exec Exn (Env P) (Option Row)). (m >>= AsyncFetch.after_pop L) env)
        (fun_ext pop_same)
      ∙ continue_paged (Sync.pop_buffered_row env).0 paging (Sync.pop_buffered_row env).1
          (pop-paging env ∙ e)

  fetchone_same : (env : Env P) → AsyncFetch.fetchone L env ≡ SyncFetch.fetchone L env
  unfolding AsyncFetch.fetchone
  fetchone_same env = next_in_same env.cursor.paging_state env refl

  fetch_rows_same :
      (size : ℕ) (rows : List Row) (env : Env P)
      → AsyncFetch.fetch_rows L size rows env ≡ SyncFetch.fetch_rows L size rows env
  unfolding AsyncFetch.fetch_rows SyncFetch.fetch_rows
  fetch_rows_same zero rows env = refl
  fetch_rows_same (suc size) rows env =
      ap (next_row rows (AsyncFetch.fetch_rows L size)) (fetchone_same env)
      ∙ ap (λ again. next_row rows again (SyncFetch.fetchone L env))
          (fun_ext λ rows'. fun_ext (fetch_rows_same size rows'))

  fetch_rest_same :
      (fuel : ℕ) (rows : List Row) (env : Env P)
      → AsyncFetch.fetch_rest L fuel rows env ≡ SyncFetch.fetch_rest L fuel rows env
  unfolding AsyncFetch.fetch_rest SyncFetch.fetch_rest
  fetch_rest_same zero rows env = refl
  fetch_rest_same (suc fuel) rows env =
      ap (next_row rows (AsyncFetch.fetch_rest L fuel)) (fetchone_same env)
      ∙ ap (λ again. next_row rows again (SyncFetch.fetchone L env))
          (fun_ext λ rows'. fun_ext (fetch_rest_same fuel rows'))

  fetchmany_same :
      (size : Option ℕ) (env : Env P)
      → AsyncFetch.fetchmany L size env ≡ SyncFetch.fetchmany L size env
  unfolding AsyncFetch.fetchmany SyncFetch.fetchmany
  fetchmany_same none env = fetch_rows_same env.cursor.arraysize [] env
  fetchmany_same (some size) env = fetch_rows_same size [] env

  -- If the server takes FETCH n and FETCH FORWARD n for the same statement, then on every cursor,
  -- paged or not, fetchone, fetchmany and fetchall of the asynchronous cursor give what those of
  -- the synchronous cursor give, with the same effects and, for fetchall, in the same number of
  -- rounds.
  pub fetches_same :
      (size : Option ℕ) (fuel : ℕ) (env : Env P)
      → (AsyncFetch.fetchone L env ≡ SyncFetch.fetchone L env)
        × (AsyncFetch.fetchmany L size env ≡ SyncFetch.fetchmany L size env)
        × (AsyncFetch.fetchall L fuel env ≡ SyncFetch.fetchall L fuel env)
  unfolding AsyncFetch.fetchall SyncFetch.fetchall
  fetches_same size fuel env =
      (fetchone_same env, fetchmany_same size env, fetch_rest_same fuel [] env)
