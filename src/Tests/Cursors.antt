-- ===== src/Tests/Cursors.antt =====
-- Cursors over a client that answers, and over one that refuses large pages.
use aurora_data_api.Base.{
  ℕ, ◌≡◌, refl, Bool, true, false, some, List, [], ◌∷◌, arith, take, drop, if◌then◌else◌, none,
}
use aurora_data_api.Base.Text.{codes, contains, Text}
use aurora_data_api.Base.Exec.{ok, raised, Ends}
use aurora_data_api.Base.Int.{pos}
use aurora_data_api.Convert.{scalar}
use aurora_data_api.Convert.Params.{no_parameters}
use aurora_data_api.Value.{int_value, str_value}
use aurora_data_api.Env.{Env, Row, PagingState, Rendered}
use aurora_data_api.Cursor.{with_cursor, fetch_next_page}
use aurora_data_api.Cursor.Fetch.{fetchone, fetchmany, fetchall, iter_next}
use aurora_data_api.Cursor.Fetch.Rows.{pending, fetchmany-pending, fetchall-pending}
use aurora_data_api.Cursor.Fetch.Iteration.{iter_next-fetchone}
use aurora_data_api.Cursor.Paging.{Responds, fetch_next_page-Ends}
use aurora_data_api.Cursor.Execute.{execute, parameters_arg}
use aurora_data_api.Cursor.Execute.Frame.{execute-Frame}
use aurora_data_api.Cursor.Frame.{Frame}
use aurora_data_api.Cursor.Fetch.Frame.{fetch-Frame}
use aurora_data_api.Cursor.Fetch.Stream.{fetch}
use aurora_data_api.Source.{many}
use aurora_data_api.Cursor.Batch.{page_input, executemany_once, format_batch}
use aurora_data_api.Cursor.Batch.Sent.{Recording, Sent, executemany_once-Sent}
use aurora_data_api.Convert.Params.{Param, Parameters, mapping, prepare_param, format_parameters}
use aurora_data_api.Cursor.Batch.Laws.{joined, AreFull, page_input-joined}
use aurora_data_api.Cursor.Execute.{new_cursor}
use aurora_data_api.Convert.Params.{no_parameters}
use aurora_data_api.Connection.{prepare_execute_args}
use aurora_data_api.Statements.{render_response}
use aurora_data_api.Cursor.{set_description}
use aurora_data_api.Convert.{convert_value}
use aurora_data_api.Convert.Columns.{build_description}
use aurora_data_api.Cursor.Execute.{parameters_arg}
use aurora_data_api.Cursor.Execute.Rows.{fetchall-execute}
use aurora_data_api.Tests.Clients.{two_rows, too_large, fresh_connection, Answering, Crowded, fresh}
use aurora_data_api.Tests.Library.{Encoded}

row : ℕ → Row
row n = scalar (int_value (pos n)) ∷ []

abbrev three_rows : List Row
three_rows = row 1 ∷ row 2 ∷ row 3 ∷ []

-- One of the three rows has been handed out.
buffered_env : Env Answering
unfolding fresh
buffered_env =
    with_cursor (λ c. record c { buffer = some three_rows; buffer_idx = 1 }) (fresh Answering 0)

fetchmany-pending_example :
    ((fetchmany Encoded (some 1) buffered_env).0 ≡ ok (take 1 (pending buffered_env.cursor)))
    × (pending (fetchmany Encoded (some 1) buffered_env).1.cursor
        ≡ drop 1 (pending buffered_env.cursor))
unfolding buffered_env fresh new_cursor
fetchmany-pending_example = fetchmany-pending Encoded (some 1) buffered_env refl

fetchall-pending_example :
    ((fetchall Encoded 3 buffered_env).0 ≡ ok (pending buffered_env.cursor))
    × (pending (fetchall Encoded 3 buffered_env).1.cursor ≡ [])
unfolding buffered_env fresh new_cursor
fetchall-pending_example = fetchall-pending Encoded 3 buffered_env refl (omega arith)

iter_next-fetchone_example : iter_next Encoded buffered_env ≡ fetchone Encoded buffered_env
iter_next-fetchone_example = iter_next-fetchone Encoded buffered_env

paged : PagingState → Env Crowded
unfolding fresh
paged paging = with_cursor (λ c. record c { paging_state = some paging }) (fresh Crowded 0)

abbrev four_a_page : PagingState
four_a_page = record {
  execute_statement_args = prepare_execute_args fresh_connection (codes "SELECT * FROM t");
  records_per_page = 4;
  pg_cursor_name = codes "\"c\"";
}

page-Ends :
    (fetch small : Bool)
    → Ends (if fetch then (if small then ok two_rows else raised too_large) else ok two_rows)
page-Ends true true = tt
page-Ends true false = tt
page-Ends false small = tt

crowded_responds : Responds Crowded
crowded_responds args w =
    page-Ends (contains (codes "FETCH FORWARD") args.sql) (contains (codes "FORWARD 1 ") args.sql)

fetch_next_page-Ends_example : Ends (fetch_next_page Encoded (paged four_a_page)).0
fetch_next_page-Ends_example = fetch_next_page-Ends crowded_responds Encoded (paged four_a_page)

execute-Frame_example :
    Frame buffered_env (execute Encoded (codes "SELECT 1") no_parameters buffered_env).1
execute-Frame_example = execute-Frame Encoded (codes "SELECT 1") no_parameters buffered_env

fetch-Frame_example : Frame buffered_env (fetch Encoded 3 (many 2) buffered_env).1
fetch-Frame_example = fetch-Frame Encoded 3 (many 2) buffered_env

abbrev five : List ℕ
five = 1 ∷ 2 ∷ 3 ∷ 4 ∷ 5 ∷ []

page_input-joined_example :
    (joined (page_input five (some 2) 4) ≡ five) × AreFull 2 (page_input five (some 2) 4)
page_input-joined_example = page_input-joined five (some 2) 4 (omega arith)

abbrev numbered : ℕ → Parameters
numbered n = mapping ((codes "n", int_value (pos n)) ∷ [])

abbrev three_numbered : List Parameters
three_numbered = numbered 1 ∷ numbered 2 ∷ numbered 3 ∷ []

abbrev three_sets : List (List Param)
three_sets =
    (prepare_param Encoded (codes "n") (int_value (pos 1)) ∷ [])
    ∷ (prepare_param Encoded (codes "n") (int_value (pos 2)) ∷ [])
    ∷ (prepare_param Encoded (codes "n") (int_value (pos 3)) ∷ [])
    ∷ []

-- Two parameter sets a batch, and nothing sent.
recorded : Env (Recording Answering)
unfolding fresh
recorded = with_cursor (λ c. record c { arraysize = 2 }) (fresh (Recording Answering) (0, []))

executemany_once-Sent_example :
    Sent Answering
      (codes "INSERT INTO t VALUES (:n)")
      three_sets
      recorded
      (executemany_once Encoded (codes "INSERT INTO t VALUES (:n)") three_numbered recorded)
unfolding recorded fresh new_cursor format_batch format_parameters
executemany_once-Sent_example =
    executemany_once-Sent Answering Encoded (codes "INSERT INTO t VALUES (:n)") three_numbered
      three_sets recorded (omega arith) refl

record_of : ℕ → Text → Row
record_of n name = scalar (int_value (pos n)) ∷ scalar (str_value name) ∷ []

abbrev two_rendered : Rendered
two_rendered = record {
  records = some (record_of 1 (codes "a") ∷ record_of 2 (codes "b") ∷ []);
  column_metadata = two_rows.column_metadata;
  number_of_records_updated = none;
  generated_fields = none;
}

fetchall-execute_example :
    ((execute Encoded (codes "SELECT 1") no_parameters (fresh Answering 0)).0 ≡ ok tt)
    × ((fetchall Encoded 3
          (execute Encoded (codes "SELECT 1") no_parameters (fresh Answering 0)).1).0
        ≡ ok (record_of 1 (codes "a") ∷ record_of 2 (codes "b") ∷ []))
unfolding fresh parameters_arg render_response new_cursor record_of set_description convert_value
    build_description
fetchall-execute_example =
    fetchall-execute Encoded (codes "SELECT 1") no_parameters (fresh Answering 0) none two_rows 1
      two_rendered 3 refl refl refl (omega arith)
