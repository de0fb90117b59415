-- ===== src/Cursor/Fetch/Server.antt =====
-- A server that keeps the rows of a cursor, as `AuroraDataAPICursor` of __init__.py speaks to it.
pub mod Pages
pub mod Paged
use aurora_data_api.Base.{
  ◌⊎◌, ◌≢◌, ℕ, ◌+◌, ◌-◌, ◌≤◌, ◌≡◌, refl, Bool, true, Option, none, some, List, [], ◌∷◌, take, drop,
  length, if◌then◌else◌, Bool-cases, inl, inr,
}
use aurora_data_api.Base.Text.{Text, codes}
use aurora_data_api.Base.Exec.{ok, raised}
use aurora_data_api.Convert.{Field}
use aurora_data_api.Convert.Columns.{Column, ColumnDescription, build_description}
use aurora_data_api.Errors.Classes.{Exn, is_instance, unsupported_result}
use aurora_data_api.Platform.{ExecuteArgs, Response, Platform}
use aurora_data_api.Env.{Cursor}
use aurora_data_api.Statements.{fetch_stmt, move_stmt, declare_stmt, with_sql}
use aurora_data_api.Cursor.{describe_page, is_described, set_description, negated, is_oversize}

-- The response to a FETCH.
abbrev pub page : Option (List Column) → List (List Field) → Response
page columns records = record {
  records = some records;
  column_metadata = columns;
  number_of_records_updated = none;
  generated_fields = none;
}

-- A server on which cursors over one result are declared. `position` is the number of records that a
-- cursor has passed, and `none` where there is no such cursor: it is not declared yet, or it has been
-- deleted with its transaction. Nothing says that a call succeeds. A page that is refused for its size
-- either was full, and the position has passed it, or has cost the transaction, and the cursor with it.
pub record Serves (P : Platform) : Type 0 where
  -- of the statement that the cursors are declared for
  pub execute_statement_args : ExecuteArgs
  pub columns : Option (List Column)
  pub records : List (List Field)
  pub position : Text → P.State → Option ℕ
  pub declares :
      (name : Text) (w w' : P.State) (response : Response)
      → P.execute_statement
          (with_sql (declare_stmt name execute_statement_args.sql) execute_statement_args)
          w
        ≡ (ok response, w')
      → position name w' ≡ some 0
  pub returns :
      (name : Text) (n p : ℕ) (w w' : P.State) (response : Response)
      → 1 ≤ n
      → position name w ≡ some p
      → P.execute_statement (with_sql (fetch_stmt n name) execute_statement_args) w
        ≡ (ok response, w')
      → (response ≡ page columns (take n (drop p records)))
        × (position name w' ≡ some (p + length (take n (drop p records))))
  pub refuses :
      (name : Text) (n p : ℕ) (w w' : P.State) (e : Exn)
      → 1 ≤ n
      → position name w ≡ some p
      → P.execute_statement (with_sql (fetch_stmt n name) execute_statement_args) w ≡ (raised e, w')
      → is_instance e unsupported_result ≡ true
      → is_oversize e ≡ true
      → (position name w' ≡ none) ⊎ (position name w' ≡ some (p + n))
  pub moves :
      (name : Text) (n p : ℕ) (w w' : P.State) (response : Response)
      → 1 ≤ n
      → position name w ≡ some (p + n)
      → P.execute_statement
          (with_sql (move_stmt (codes "relative") (negated n) name) execute_statement_args)
          w
        ≡ (ok response, w')
      → position name w' ≡ some p
  pub absent :
      (name : Text) (n : ℕ) (w w' : P.State) (response : Response)
      → 1 ≤ n
      → position name w ≡ none
      → P.execute_statement
          (with_sql (move_stmt (codes "relative") (negated n) name) execute_statement_args)
          w
        ≢ (ok response, w')

-- The description after a page with these columns.
abbrev pub described :
    Option (List Column) → Option (List ColumnDescription) → Option (List ColumnDescription)
described (some (column ∷ columns)) d =
    if is_described d then d else some (build_description (column ∷ columns))
described _ d = d

pub describe_page-described :
    (columns : Option (List Column)) (c : Cursor)
    → describe_page columns c ≡ record c { description = described columns c.description }
unfolding set_description
describe_page-described none c = refl
describe_page-described (some []) c = refl
describe_page-described (some (column ∷ columns)) c =
    elim (Bool-cases (is_described c.description)) [
      | inl there ↦ rw there refl
      | inr not_there ↦ rw not_there refl
    ]

pub described_again :
    (columns : Option (List Column)) (d : Option (List ColumnDescription))
    → described columns (described columns d) ≡ described columns d
unfolding build_description
described_again none d = refl
described_again (some []) d = refl
described_again (some (column ∷ columns)) d = elim (Bool-cases (is_described d)) [
  | inl there ↦ rw (there, there) refl
  | inr not_there ↦ rw not_there refl
]
