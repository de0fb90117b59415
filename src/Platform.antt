-- ===== src/Platform.antt =====
-- What the package calls and does not implement: the client of the Data API, the clock and the random
-- names. Each call may change the state of the outside world, and may raise.
use aurora_data_api.Base.{ℕ, Bool, Option, List}
use aurora_data_api.Base.Text.{Text}
use aurora_data_api.Base.Exec.{Exec}
use aurora_data_api.Convert.{Field}
use aurora_data_api.Convert.Columns.{Column}
use aurora_data_api.Convert.Params.{Param}
use aurora_data_api.Errors.Classes.{Exn}

-- The keyword arguments of `execute_statement`; `none` is an argument that is not given, or `None`.
pub record ExecuteArgs : Type 0 where
  pub database : Option Text
  pub resource_arn : Option Text
  pub secret_arn : Option Text
  pub sql : Text
  pub transaction_id : Option Text
  pub include_result_metadata : Bool
  pub continue_after_timeout : Option Bool
  pub parameters : Option (List Param)

-- Those of `batch_execute_statement`.
pub record BatchArgs : Type 0 where
  pub database : Option Text
  pub resource_arn : Option Text
  pub secret_arn : Option Text
  pub sql : Text
  pub transaction_id : Option Text
  pub parameter_sets : List (List Param)

-- Those of `begin_transaction`.
pub record BeginArgs : Type 0 where
  pub database : Option Text
  pub resource_arn : Option Text
  pub secret_arn : Option Text

-- Those of `commit_transaction` and `rollback_transaction`.
pub record EndArgs : Type 0 where
  pub resource_arn : Option Text
  pub secret_arn : Option Text
  pub transaction_id : Text

-- The parts of a response of `execute_statement` that the package reads.
pub record Response : Type 0 where
  pub records : Option (List (List Field))
  pub column_metadata : Option (List Column)
  pub number_of_records_updated : Option ℕ
  pub generated_fields : Option (List Field)

pub record Platform : Type 1 where
  pub State : Type 0
  pub execute_statement : ExecuteArgs → Exec Exn State Response
  pub batch_execute_statement : BatchArgs → Exec Exn State (Unit {0})
  -- the response's `transactionId`
  pub begin_transaction : BeginArgs → Exec Exn State (Option Text)
  -- the response's `transactionStatus`
  pub commit_transaction : EndArgs → Exec Exn State (Option Text)
  pub rollback_transaction : EndArgs → Exec Exn State (Unit {0})
  -- `time.sleep`
  pub sleep : ℕ → State → State
  -- the time in seconds and eight random characters, joined by `_`
  pub cursor_suffix : State → Text × State
