-- ===== src/Tests/Paging.antt =====
-- Cursors that are paged on a server.
use aurora_data_api.Base.{
  ◌⊎◌, ◌≡◌, refl, true, false, none, some, List, [], ◌∷◌, arith, if◌then◌else◌, ℕ, ◌+◌, Bool, some,
  some, some, some, some, some,
}
use aurora_data_api.Base.Text.{Text, codes, contains}
use aurora_data_api.Base.Exec.{ok, raised}
use aurora_data_api.Convert.{convert_value}
use aurora_data_api.Env.{Env}
use aurora_data_api.Errors.Classes.{Exn, new_exn, bad_request}
use aurora_data_api.Platform.{Platform}
use aurora_data_api.Source.{Fetch, one, many, all, replay, run}
use aurora_data_api.Statements.{render_records, render_record}
use aurora_data_api.Async.Adapted.{Adapted, async_soft_close}
use aurora_data_api.Async.Adapted.Drained.{fetch as fetch_drained, outside}
use aurora_data_api.Async.Adapted.Drained.Paged.{async_soft_close-rows_left}
use aurora_data_api.Cursor.{fetch_next_page, with_cursor}
use aurora_data_api.Cursor.Execute.{new_cursor}
use aurora_data_api.Cursor.Fetch.Stream.{fetch}
use aurora_data_api.Cursor.Fetch.Server.Pages.{Loads, fetch_next_page-Loads, paged, paging}
use aurora_data_api.Cursor.Fetch.Server.Paged.{paged_replay, paged_replay_or_raise}
use aurora_data_api.Tests.Clients.{Answering, fresh, too_large}
use aurora_data_api.Tests.Library.{Encoded}
use aurora_data_api.Tests.Servers.{
  kept_rows, Serving, server, serves_forward, serves_responds, keeps-Risk,
}

kept_renders :
    (deletes : Bool) (limit : ℕ)
    → render_records Encoded none (server deletes limit).records ≡ ok kept_rows
unfolding server render_records render_record convert_value
kept_renders deletes limit = refl

abbrev name : Text
name = codes "\"c\""

-- Paged with two records a page on a cursor that stands at the start, of a server that refuses more
-- than `limit` and keeps its cursor then.
unfoldable paged_start : (limit : ℕ) → Env (Serving false limit)
unfolding fresh server
paged_start limit =
    with_cursor (λ c. record c { paging_state = some (paging Encoded (server false limit) name 2) })
      (fresh (Serving false limit) (some 0))

abbrev some_calls : List Fetch
some_calls = one ∷ many 1 ∷ all ∷ one ∷ []

-- The server refuses the first page of two records, and the driver fetches one in its place.
paged_replay_example :
    (run (fetch Encoded 4) some_calls (paged_start 1)).0 ≡ ok (replay some_calls kept_rows)
unfolding paged_start server fresh new_cursor
paged_replay_example =
    paged_replay Encoded (server false 1) none kept_rows (kept_renders false 1)
      (serves_responds false 1) 2 (keeps-Risk 1 (omega arith) Encoded 2) 4 some_calls
      (paged_start 1) (2, name, 0, refl, omega arith, omega arith, refl, (refl, omega arith))
      (omega arith)

paged_replay_or_raise_example :
    ((run (fetch Encoded 4) some_calls (paged_start 1)).0 ≡ ok (replay some_calls kept_rows))
    ⊎ (⊥ × (e : Exn) × ((run (fetch Encoded 4) some_calls (paged_start 1)).0 ≡ raised e))
unfolding paged_start server fresh new_cursor
paged_replay_or_raise_example =
    paged_replay_or_raise Encoded (server false 1) none kept_rows (kept_renders false 1)
      (serves_responds false 1) 2 (keeps-Risk 1 (omega arith) Encoded 2) 4 some_calls
      (paged_start 1) (2, name, 0, refl, omega arith, omega arith, refl, (refl, omega arith))
      (omega arith)

-- With no statement sent, of a server that refuses pages of more than one record.
start : Env (Serving false 1)
unfolding fresh
start = fresh (Serving false 1) none

fetch_next_page-Loads_example :
    Loads Encoded
      (server false 2)
      none
      kept_rows
      (kept_renders false 2)
      ⊥
      2
      name
      0
      (fresh (Serving false 2) (some 0))
      (fetch_next_page Encoded
        (paged Encoded (server false 2) name 2 (fresh (Serving false 2) (some 0))))
unfolding fresh server new_cursor render_records render_record convert_value
fetch_next_page-Loads_example =
    fetch_next_page-Loads Encoded (server false 2) none kept_rows (kept_renders false 2)
      (serves_responds false 2) 2 (keeps-Risk 2 (omega arith) Encoded 2) 2 0 name
      (fresh (Serving false 2) (some 0)) (omega arith) (omega arith) refl (refl, omega arith)

-- Refuses the result of the statement for its size and terminates the transaction, which the
-- declaration of a cursor then does not find.
abbrev lost : Text
lost = codes "Transaction tx1 is not found"

abbrev Terminating : Platform
Terminating = record Answering {
  execute_statement = λ args w.
      if contains (codes "DECLARE") args.sql
      then (raised (new_exn bad_request lost), w + 1)
      else (raised too_large, w + 1);
}

abbrev paged_face : Adapted (Serving false 2)
paged_face = record {
  env = paged_start 2;
  arraysize = 2;
  description = none;
  drained_rows = none;
  in_greenlet = true;
}

async_soft_close-rows_left_example :
    ((async_soft_close Encoded 4 paged_face).0 ≡ ok tt)
    × ((run
          (fetch_drained Encoded 0)
          some_calls
          (outside (async_soft_close Encoded 4 paged_face).1)).0
        ≡ ok (replay some_calls kept_rows))
unfolding paged_start server fresh new_cursor render_records render_record convert_value
async_soft_close-rows_left_example =
    async_soft_close-rows_left Encoded (server false 2) (serves_forward false 2) none kept_rows
      (kept_renders false 2) (serves_responds false 2) 2 (keeps-Risk 2 (omega arith) Encoded 2) 4 0
      paged_face some_calls (2, name, 0, refl, omega arith, omega arith, refl, (refl, omega arith))
      (omega arith)
