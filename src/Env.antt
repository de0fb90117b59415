-- ===== src/Env.antt =====
-- The objects of a program that holds one connection and one of its cursors, and the world outside.
use aurora_data_api.Base.{ℕ, Bool, Option, List}
use aurora_data_api.Base.Text.{Text}
use aurora_data_api.Base.Exec.{Exec}
use aurora_data_api.Convert.{Converted, Field}
use aurora_data_api.Convert.Columns.{Column, ColumnDescription}
use aurora_data_api.Errors.Classes.{Exn}
use aurora_data_api.Errors.Factory.{Factories}
use aurora_data_api.Platform.{ExecuteArgs, Platform}

-- The attributes of `AuroraDataAPIClient`, but for the client itself.
pub record Connection : Type 0 where
  pub aurora_cluster_arn : Option Text
  pub secret_arn : Option Text
  pub dbname : Option Text
  pub charset : Option Text
  pub continue_after_timeout : Option Bool
  pub transaction_id : Option Text

-- A row as the cursor hands it out.
abbrev pub Row : Type 0
Row = List Converted

-- `_current_response`, its records converted.
pub record Rendered : Type 0 where
  pub records : Option (List Row)
  pub column_metadata : Option (List Column)
  pub number_of_records_updated : Option ℕ
  pub generated_fields : Option (List Field)

-- `_paging_state`
pub record PagingState : Type 0 where
  pub execute_statement_args : ExecuteArgs
  pub records_per_page : ℕ
  pub pg_cursor_name : Text

-- The attributes of `AuroraDataAPICursor`. Of `_iterator`, which nothing reads, only whether it is set.
pub record Cursor : Type 0 where
  pub arraysize : ℕ
  pub description : Option (List ColumnDescription)
  pub current_response : Option Rendered
  pub iterator : Bool
  pub paging_state : Option PagingState
  pub buffer : Option (List Row)
  pub buffer_idx : ℕ

-- `factories` is the state of `MySQLError` and `PostgreSQLError`.
pub record Env (P : Platform) : Type 0 where
  pub connection : Connection
  pub cursor : Cursor
  pub factories : Factories
  pub world : P.State

module _ {P : Platform} where
  -- A call of the client.
  abbrev pub call : {A : Type 0} → Exec Exn P.State A → Exec Exn (Env P) A
  call m env = let (r, w) = m env.world in (r, record env { world = w })

  abbrev pub sleeping : ℕ → Env P → Env P
  sleeping d env = record env { world = P.sleep d env.world }
