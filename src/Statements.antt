-- ===== src/Statements.antt =====
-- The SQL texts that the cursor puts together, and the conversion of a response.
pub mod Ends
pub mod Slices
use aurora_data_api.Base.{ℕ, Option, none, some, List, [], ◌∷◌, ◌++◌, suc, get_elem?}
use aurora_data_api.Base.Int.{ℤ, pos, negsuc}
use aurora_data_api.Base.Text.{Text, codes}
use aurora_data_api.Base.Decimal.{show_nat}
use aurora_data_api.Base.Exec.{Result, ok, raised, diverged}
use aurora_data_api.Value.{Stdlib}
use aurora_data_api.Convert.{Field, convert_value}
use aurora_data_api.Convert.Columns.{ColumnDescription, upper}
use aurora_data_api.Errors.Classes.{Exn, new_exn, index_error}
use aurora_data_api.Platform.{ExecuteArgs, Response}
use aurora_data_api.Env.{Row, Rendered}

-- `str(n)`
pub show_int : ℤ → Text
show_int (pos n) = show_nat n
show_int (negsuc n) = codes "-" ++ show_nat (suc n)

-- The name of a server-side cursor, in quotes.
unfoldable pub cursor_name : Text → Text → Text
cursor_name module_name suffix =
    codes "\"" ++ (module_name ++ (codes "_" ++ (suffix ++ codes "\"")))

unfoldable pub declare_stmt : Text → Text → Text
declare_stmt name sql = codes "DECLARE " ++ (name ++ (codes " SCROLL CURSOR FOR " ++ sql))

unfoldable pub fetch_stmt : ℕ → Text → Text
fetch_stmt n name = codes "FETCH FORWARD " ++ (show_nat n ++ (codes " FROM " ++ name))

unfoldable pub move_stmt : Text → ℤ → Text → Text
unfolding show_int
move_stmt mode value name =
    codes "MOVE " ++ (upper mode ++ (codes " " ++ (show_int value ++ (codes " FROM " ++ name))))

abbrev pub with_sql : Text → ExecuteArgs → ExecuteArgs
with_sql text args = record args { sql = text }

unfoldable pub size_limit : Text
size_limit = codes "The result exceeds the size limit"

-- `description[j] if description else None`; an index beyond the description raises.
column_at : Option (List ColumnDescription) → ℕ → Result Exn (Option ColumnDescription)
column_at none j = ok none
column_at (some []) j = ok none
column_at (some (d ∷ ds)) j = elim (get_elem? (d ∷ ds) j) [
  | none ↦ raised (new_exn index_error (codes "list index out of range"))
  | some col ↦ ok (some col)
]

abbrev pub and_then : {A B : Type 0} → Result Exn A → (A → Result Exn B) → Result Exn B
and_then (ok a) f = f a
and_then (raised e) f = raised e
and_then diverged f = diverged

module _ (L : Stdlib) (description : Option (List ColumnDescription)) where
  -- The values of a record from column `j` on.
  unfoldable pub render_record : ℕ → List Field → Result Exn Row
  unfolding column_at
  render_record j [] = ok []
  render_record j (field ∷ fields) = and_then (column_at description j) λ col.
      and_then (convert_value L field col)
        λ v. and_then (render_record (suc j) fields) λ row. ok (v ∷ row)

  unfoldable pub render_records : List (List Field) → Result Exn (List Row)
  unfolding render_record
  render_records [] = ok []
  render_records (fields ∷ records) =
      and_then (render_record 0 fields)
        λ row. and_then (render_records records) λ rows. ok (row ∷ rows)

  abbrev pub rendered : Response → Option (List Row) → Rendered
  rendered response rows = record {
    records = rows;
    column_metadata = response.column_metadata;
    number_of_records_updated = response.number_of_records_updated;
    generated_fields = response.generated_fields;
  }

  unfoldable pub render_with : Response → Option (List (List Field)) → Result Exn Rendered
  unfolding render_records
  render_with response none = ok (rendered response none)
  render_with response (some records) =
      and_then (render_records records) λ rows. ok (rendered response (some rows))

  -- `_render_response`
  unfoldable pub render_response : Response → Result Exn Rendered
  unfolding render_with
  render_response response = render_with response response.records
