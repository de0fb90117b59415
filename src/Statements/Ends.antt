-- ===== src/Statements/Ends.antt =====
-- `_render_response` of __init__.py ends.
use aurora_data_api.Base.{Option, none, some, List, [], ◌∷◌, ℕ, suc, get_elem?}
use aurora_data_api.Base.Exec.{Result, ok, raised, diverged, Ends}
use aurora_data_api.Value.{Stdlib}
use aurora_data_api.Errors.Classes.{Exn, new_exn, index_error}
use aurora_data_api.Convert.{Field}
use aurora_data_api.Convert.Columns.{ColumnDescription}
use aurora_data_api.Convert.Ends.{convert_value-Ends}
use aurora_data_api.Platform.{Response}
use aurora_data_api.Statements.{
  and_then, column_at, render_record, render_records, render_with, render_response, codes,
}

and_then-Ends :
    {A B : Type 0} (r : Result Exn A) (f : A → Result Exn B)
    → Ends r
    → ((a : A) → Ends (f a))
    → Ends (and_then r f)
and_then-Ends (ok a) f h k = k a
and_then-Ends (raised e) f h k = tt
and_then-Ends diverged f h k = h

found-Ends :
    (o : Option ColumnDescription)
    → Ends (elim o as (λ _. Result Exn (Option ColumnDescription)) [
      | none ↦ raised (new_exn index_error (codes "list index out of range"))
      | some col ↦ ok (some col)
    ])
found-Ends none = tt
found-Ends (some col) = tt

column_at-Ends : (ds : Option (List ColumnDescription)) (j : ℕ) → Ends (column_at ds j)
unfolding column_at
column_at-Ends none j = tt
column_at-Ends (some []) j = tt
column_at-Ends (some (d ∷ ds)) j = found-Ends (get_elem? (d ∷ ds) j)

module _ (L : Stdlib) (description : Option (List ColumnDescription)) where
  render_record-Ends : (j : ℕ) (fields : List Field) → Ends (render_record L description j fields)
  unfolding render_record
  render_record-Ends j [] = tt
  render_record-Ends j (field ∷ fields) = and_then-Ends _ _ (column_at-Ends description j) λ col.
      and_then-Ends _ _ (convert_value-Ends L field col)
        λ v. and_then-Ends _ _ (render_record-Ends (suc j) fields) λ row. tt

  render_records-Ends : (records : List (List Field)) → Ends (render_records L description records)
  unfolding render_records
  render_records-Ends [] = tt
  render_records-Ends (fields ∷ records) =
      and_then-Ends _ _ (render_record-Ends 0 fields)
        λ row. and_then-Ends _ _ (render_records-Ends records) λ rows. tt

  render_with-Ends :
      (response : Response) (records : Option (List (List Field)))
      → Ends (render_with L description response records)
  unfolding render_with
  render_with-Ends response none = tt
  render_with-Ends response (some records) =
      and_then-Ends _ _ (render_records-Ends records) λ rows. tt

  pub render_response-Ends : (response : Response) → Ends (render_response L description response)
  unfolding render_response
  render_response-Ends response = render_with-Ends response response.records
