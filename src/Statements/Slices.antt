-- ===== src/Statements/Slices.antt =====
-- The conversion of a part of the records of a result.
use aurora_data_api.Base.{
  ℕ, zero, suc, ◌≡◌, refl, sym, ap, Option, List, [], ◌∷◌, take, drop, length,
}
use aurora_data_api.Base.Exec.{Result, ok, raised, diverged}
use aurora_data_api.Value.{Stdlib}
use aurora_data_api.Convert.{Field}
use aurora_data_api.Convert.Columns.{ColumnDescription}
use aurora_data_api.Errors.Classes.{Exn}
use aurora_data_api.Env.{Row}
use aurora_data_api.Statements.{and_then, render_record, render_records}

and_then-ok :
    {A B : Type 0} (r : Result Exn A) (f : A → Result Exn B) (b : B)
    → and_then r f ≡ ok b
    → (a : A) × (r ≡ ok a) × (f a ≡ ok b)
and_then-ok (ok a) f b e = (a, refl, e)
and_then-ok (raised x) f b e = absurd (cc)
and_then-ok diverged f b e = absurd (cc)

module _ (L : Stdlib) (description : Option (List ColumnDescription)) where
  abbrev Renders : List (List Field) → List Row → Type 0
  Renders records rows = render_records L description records ≡ ok rows

  render_records_split :
      (fields : List Field) (records : List (List Field)) (rows : List Row)
      → Renders (fields ∷ records) rows
      → (row : Row) × (rest : List Row) × (rows ≡ row ∷ rest)
        × (render_record L description 0 fields ≡ ok row)
        × Renders records rest
  unfolding render_records
  render_records_split fields records rows e =
      let (row, er, e') = and_then-ok (render_record L description 0 fields) _ rows e in
      let (rest, es, e'') = and_then-ok (render_records L description records) _ rows e' in
      let same : rows ≡ row ∷ rest = cc in (row, rest, same, er, es)

  pub render_records-take :
      (n : ℕ) (records : List (List Field)) (rows : List Row)
      → Renders records rows
      → Renders (take n records) (take n rows)
  unfolding render_records
  render_records-take zero records rows e = refl
  render_records-take (suc n) [] rows e = let same : [] ≡ rows = cc in rw (sym same) refl
  render_records-take (suc n) (fields ∷ records) rows e =
      let (row, rest, same, er, es) = render_records_split fields records rows e in
      rw (same, er, render_records-take n records rest es) refl

  pub render_records-drop :
      (n : ℕ) (records : List (List Field)) (rows : List Row)
      → Renders records rows
      → Renders (drop n records) (drop n rows)
  unfolding render_records
  render_records-drop zero records rows e = e
  render_records-drop (suc n) [] rows e = let same : [] ≡ rows = cc in rw (sym same) refl
  render_records-drop (suc n) (fields ∷ records) rows e =
      let (row, rest, same, er, es) = render_records_split fields records rows e in
      rw same (render_records-drop n records rest es)

  pub length-render_records :
      (records : List (List Field)) (rows : List Row)
      → Renders records rows
      → length rows ≡ length records
  unfolding render_records
  length-render_records [] rows e = let same : [] ≡ rows = cc in rw (sym same) refl
  length-render_records (fields ∷ records) rows e =
      let (row, rest, same, er, es) = render_records_split fields records rows e in
      rw same (ap suc (length-render_records records rest es))
