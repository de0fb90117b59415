-- ===== src/Cursor/Paging.antt =====
-- The loop of `_fetch_next_page_into_buffer` in __init__.py ends.
use aurora_data_api.Base.{
  ◌&&◌, if◌then◌else◌, ℕ, zero, suc, ◌/◌, ◌<◌, ◌≤◌, ◌≡◌, refl, Bool, true, false, Option, none,
  some, arith, max, ltb,
}
use aurora_data_api.Base.Exec.{
  ◌>>◌, modify, Result, Exec, ok, raised, diverged, Ends, continue-Ends, raise,
}
use aurora_data_api.Base.Int.{ℤ}
use aurora_data_api.Base.Text.{Text, codes}
use aurora_data_api.Value.{Stdlib}
use aurora_data_api.Errors.Classes.{Exn, is_instance, unsupported_result}
use aurora_data_api.Platform.{ExecuteArgs, Response, Platform}
use aurora_data_api.Env.{PagingState, Cursor, Env}
use aurora_data_api.Connection.{is_database_exception, raise_translated}
use aurora_data_api.Statements.Ends.{render_response-Ends}
use aurora_data_api.Cursor.{
  page_size, scroll, scroll_in, store_page, fetch_failed, after_fetch, fetch_in, fetch_loop,
  fetch_next_page, with_page_size, negated, is_oversize, set_records_per_page, with_cursor,
}

with_page_size-le :
    (n : ℕ) (paging : Option PagingState) (c : Cursor)
    → c.paging_state ≡ paging
    → page_size (with_page_size n paging c).paging_state ≤ n
with_page_size-le n none c e = rw e (omega arith)
with_page_size-le n (some paging) c e = omega arith

halved : (n : ℕ) → 1 < n → max 1 (n / 2) < n
halved n h = omega (arith, h)

ltb_lt : (a b : ℕ) → ltb a b ≡ true → a < b
ltb_lt a b h = ground arith

and_right : (a b : Bool) → a && b ≡ true → b ≡ true
and_right true b h = h
and_right false b h = absurd (ground arith)

if-Ends :
    {E S A : Type 0} (b : Bool) (m k : Exec E S A) (s : S)
    → (b ≡ true → Ends (m s).0)
    → Ends (k s).0
    → Ends ((if b then m else k) s).0
if-Ends true m k s h l = h refl
if-Ends false m k s h l = l

raise_translated-Ends :
    {P : Platform} (e : Exn) (env : Env P) → Ends (raise_translated {P = P} {A = Unit {0}} e env).0
unfolding raise_translated
raise_translated-Ends e env = tt

-- A call of the client returns or raises.
abbrev pub Responds : Platform → Type 0
Responds P = (args : ExecuteArgs) (w : P.State) → Ends (P.execute_statement args w).0

module _ {P : Platform} (responds : Responds P) where
  scroll_in-Ends :
      (mode : Text) (value : ℤ) (paging : Option PagingState) (env : Env P)
      → Ends (scroll_in mode value paging env).0
  unfolding scroll_in
  scroll_in-Ends mode value none env = tt
  scroll_in-Ends mode value (some paging) env = continue-Ends _ _ _ (responds _ env.world) (λ _. tt)

  scroll-Ends : (value : ℤ) (mode : Text) (env : Env P) → Ends (scroll value mode env).0
  unfolding scroll
  scroll-Ends value mode env = scroll_in-Ends mode value env.cursor.paging_state env

  module _ (L : Stdlib) where
    store_page-Ends : (page : Response) (env : Env P) → Ends (store_page L page env).0
    unfolding store_page
    store_page-Ends page env = continue-Ends _ _ _ (render_response-Ends L _ page) (λ _. tt)

    -- What the next round needs.
    abbrev EndsBelow : ℕ → Exec Exn (Env P) (Unit {0}) → Type 0
    EndsBelow n again = (env : Env P) → page_size env.cursor.paging_state < n → Ends (again env).0

    again_smaller :
        (again : Exec Exn (Env P) (Unit {0})) (rpp : ℕ)
        → EndsBelow rpp again
        → 1 < rpp
        → (r : Result Exn (Unit {0})) (env : Env P) → Ends r
        → Ends
            (((λ env'. (r, env'))
                >> modify (with_cursor (set_records_per_page (max 1 (rpp / 2))))
                >> again)
              env).0
    again_smaller again rpp h big (ok _) env ends = h _ (
        omega (
          arith,
          halved rpp big,
          with_page_size-le (max 1 (rpp / 2)) env.cursor.paging_state env.cursor refl,
        ))
    again_smaller again rpp h big (raised e) env ends = tt
    again_smaller again rpp h big diverged env ends = ends

    abbrev retry_smaller : Exec Exn (Env P) (Unit {0}) → ℕ → Exn → Exec Exn (Env P) (Unit {0})
    retry_smaller again rpp e =
        if is_oversize e && ltb 1 rpp
        then scroll (negated rpp) (codes "relative")
          >> modify (with_cursor (set_records_per_page (max 1 (rpp / 2))))
          >> again
        else raise e

    retry_smaller-Ends :
        (again : Exec Exn (Env P) (Unit {0})) (rpp : ℕ) (e : Exn)
        → EndsBelow rpp again
        → (env : Env P) → Ends (retry_smaller again rpp e env).0
    retry_smaller-Ends again rpp e h env =
        if-Ends (is_oversize e && ltb 1 rpp)
          (scroll (negated rpp) (codes "relative")
            >> modify (with_cursor (set_records_per_page (max 1 (rpp / 2))))
            >> again)
          (raise e) env
          (λ smaller.
            again_smaller again rpp h (ltb_lt 1 rpp (and_right (is_oversize e) (ltb 1 rpp) smaller))
              (scroll (negated rpp) (codes "relative") env).0
              (scroll (negated rpp) (codes "relative") env).1
              (scroll-Ends (negated rpp) (codes "relative") env))
          tt

    fetch_failed-Ends :
        (again : Exec Exn (Env P) (Unit {0})) (rpp : ℕ) (e : Exn)
        → EndsBelow rpp again
        → (env : Env P) → Ends (fetch_failed L again rpp e env).0
    unfolding fetch_failed
    fetch_failed-Ends again rpp e h env =
        if-Ends (is_instance e unsupported_result) (retry_smaller again rpp e)
          (if is_database_exception e then raise_translated e else raise e) env
          (λ _. retry_smaller-Ends again rpp e h env)
          (if-Ends (is_database_exception e) (raise_translated e) (raise e) env
            (λ _. raise_translated-Ends e env) tt)

    after_fetch-Ends :
        (again : Exec Exn (Env P) (Unit {0})) (rpp : ℕ) (r : Result Exn Response)
        → EndsBelow rpp again
        → Ends r
        → (env : Env P) → Ends (after_fetch L again rpp r env).0
    unfolding after_fetch
    after_fetch-Ends again rpp (ok page) h ends env = store_page-Ends page env
    after_fetch-Ends again rpp (raised e) h ends env = fetch_failed-Ends again rpp e h env
    after_fetch-Ends again rpp diverged h ends env = ends

    fetch_in-Ends :
        (again : Exec Exn (Env P) (Unit {0})) (paging : Option PagingState)
        → EndsBelow (page_size paging) again
        → (env : Env P) → Ends (fetch_in L again paging env).0
    unfolding fetch_in
    fetch_in-Ends again none h env = tt
    fetch_in-Ends again (some paging) h env =
        after_fetch-Ends again paging.records_per_page _ h (responds _ env.world) _

    fetch_loop-Ends : (fuel : ℕ) → EndsBelow fuel (fetch_loop L fuel)
    unfolding fetch_loop
    fetch_loop-Ends zero env h = absurd (omega (arith, h))
    fetch_loop-Ends (suc fuel) env h =
        fetch_in-Ends (λ env'. fetch_loop L fuel env') env.cursor.paging_state
          (λ env' k. fetch_loop-Ends fuel env' (omega (arith, h, k))) env

    -- If every call of execute_statement returns or raises, then loading the next page ends, with
    -- a result or an exception: the loop that fetches again with half the page size stops within
    -- the fuel that the page size gives.
    pub fetch_next_page-Ends : (env : Env P) → Ends (fetch_next_page L env).0
    unfolding fetch_next_page
    fetch_next_page-Ends env =
        fetch_loop-Ends (suc (page_size env.cursor.paging_state)) env (omega arith)
