-- ===== src/Cursor/Fetch/Iteration.antt =====
-- `__iter__` and `fetchone` of `AuroraDataAPICursor` in __init__.py.
use mathlib.Core.Path.{fun_ext}
use aurora_data_api.Base.{if◌then◌else◌, ◌≡◌, refl, ap, Option, none, some, inl, inr, Bool-cases}
use aurora_data_api.Base.Exec.{Exec, ok, ◌>>=◌}
use aurora_data_api.Value.{Stdlib}
use aurora_data_api.Errors.Classes.{Exn}
use aurora_data_api.Platform.{Platform}
use aurora_data_api.Env.{Row, PagingState, Env}
use aurora_data_api.Cursor.{pop_buffered_row, has_buffered_row, fetch_next_page}
use aurora_data_api.Cursor.Fetch.{
  fetchone, iter_next, after_pop, iter_after_pop, fetchone_unbuffered, iter_unbuffered,
}

module _ {P : Platform} (L : Stdlib) where
  guarded_pop :
      (env : Env P)
      → (if has_buffered_row env.cursor then pop_buffered_row env else (ok none, env))
        ≡ pop_buffered_row env
  unfolding pop_buffered_row
  guarded_pop env = elim (Bool-cases (has_buffered_row env.cursor)) [
    | inl has ↦ rw has refl
    | inr hasnt ↦ rw hasnt refl
  ]

  unbuffered_same :
      (paging : Option PagingState) (env : Env P)
      → iter_unbuffered L paging env ≡ fetchone_unbuffered L paging env
  unfolding iter_unbuffered fetchone_unbuffered
  unbuffered_same none env = refl
  unbuffered_same (some paging) env =
      ap (λ (k : Exec Exn (Env P) (Option Row)). (fetch_next_page L >>= λ _. k) env)
        (fun_ext guarded_pop)

  after_pop_same : (row : Option Row) (env : Env P) → iter_after_pop L row env ≡ after_pop L row env
  unfolding iter_after_pop after_pop
  after_pop_same (some row) env = refl
  after_pop_same none env = unbuffered_same env.cursor.paging_state env

  -- On every cursor, paged or not, a step of an iteration that has not ended gives what fetchone
  -- gives, with the same effects: the same row, the same exception, or the end where fetchone
  -- returns None.
  pub iter_next-fetchone : (env : Env P) → iter_next L env ≡ fetchone L env
  unfolding iter_next fetchone
  iter_next-fetchone env =
      ap (λ (k : Option Row → Exec Exn (Env P) (Option Row)). (pop_buffered_row >>= k) env)
        (fun_ext λ row. fun_ext (after_pop_same row))
