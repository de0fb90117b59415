-- ===== src/Async/Adapted/Drained/Paged.antt =====
-- `_async_soft_close` of async_driver.py over a cursor that is paged on a server.
use aurora_data_api.Base.{ℕ, ◌<◌, ◌≡◌, inl, inr, ◌∙◌, Option, none, List, length}
use aurora_data_api.Base.Exec.{ok}
use aurora_data_api.Value.{Stdlib}
use aurora_data_api.Convert.Columns.{ColumnDescription}
use aurora_data_api.Platform.{Platform}
use aurora_data_api.Env.{Row}
use aurora_data_api.Source.{Fetch, all, replay, run}
use aurora_data_api.Statements.{render_records}
use aurora_data_api.Cursor.Fetch.Stream.{fetch-Hands}
use aurora_data_api.Cursor.Fetch.Stream as Stream
use aurora_data_api.Cursor.Fetch.Server.{Serves}
use aurora_data_api.Cursor.Fetch.Server.Pages.{Risk}
use aurora_data_api.Cursor.Paging.{Responds}
use aurora_data_api.Cursor.Fetch.Server.Paged.{IsPaged, rows_left, paged_stream}
use aurora_data_api.Async.Cursor.Same.{fetches_same}
use aurora_data_api.Async.Cursor.Same.Pages.{FetchesForward}
use aurora_data_api.Async.Adapted.{Adapted, async_soft_close}
use aurora_data_api.Async.Adapted.Drained.{fetch, outside, async_soft_close-replay}

module _ {P : Platform} (L : Stdlib) (server : Serves P) where
  -- Suppose that the asynchronous cursor of a face is paged on an existing cursor of a server on
  -- which, as Serves says, a DECLARE, FETCH or MOVE of the cursor that returns does what it is
  -- asked for, and a FETCH that is refused for its size has either deleted the cursor or passed as
  -- many records as it asked for, with rows of a page left in its buffer or none, that FETCH n and
  -- FETCH FORWARD n are the same statement to the server, that every call of execute_statement
  -- returns or raises, that the server does not raise for a FETCH from an existing cursor, other
  -- than by refusing a page of more than one record for its size, nor for the MOVE back after such
  -- a refusal, where the FETCH is of at least one record and within a given bound, that the page
  -- size is at least one and within this bound and the array size at least one, and that the rows
  -- can be converted with the description that the cursor has after a page. Then
  -- _async_soft_close, given more rounds than there are rows left, returns, and any sequence of
  -- fetch calls made on the face afterwards, outside a greenlet, hands out the rows of the buffer
  -- and then those that the server still had, each once and in order, as a list would.
  pub async_soft_close-rows_left :
      (forward : FetchesForward P) (d : Option (List ColumnDescription)) (rows : List Row)
      (renders : render_records L d server.records ≡ ok rows) (responds : Responds P) (largest : ℕ)
      (risk : Risk L server ⊥ largest) (fuel later : ℕ) (a : Adapted P) (calls : List Fetch)
      → IsPaged L server d rows renders largest a.env
      → length (rows_left L server d rows renders a.env) < fuel
      → ((async_soft_close L fuel a).0 ≡ ok tt)
        × ((run (fetch L later) calls (outside (async_soft_close L fuel a).1)).0
            ≡ ok (replay calls (rows_left L server d rows renders a.env)))
  unfolding paged_stream Stream.fetch
  async_soft_close-rows_left forward d rows renders responds largest risk fuel later a calls
        is_paged enough =
      elim (fetch-Hands L (paged_stream L server d rows renders responds largest risk) fuel all
        a.env is_paged enough) [
          | inr (never, _, _, _) ↦ absurd never
          | inl (env', fetched, _, _) ↦
              let (_, _, same) = fetches_same forward L none fuel a.env in
              let (closed, answers, _) =
                async_soft_close-replay L fuel later a (rows_left L server d rows renders a.env)
                  env' calls (same ∙ fetched) in
              (closed, answers)
        ]
