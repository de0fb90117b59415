-- ===== src/Tests/Retries.antt =====
-- Decorated callables over a database that is resuming.
use aurora_data_api.Base.{ℕ, zero, suc, []}
use aurora_data_api.Base.Text.{Text, codes}
use aurora_data_api.Base.Exec.{Exec, ok, raised}
use aurora_data_api.Errors.Classes.{Exn}
use aurora_data_api.Retry.{attempts, retry_resuming, resuming_delays}
use aurora_data_api.Retry.Laws.{
  Scheduled, is_resuming, attempts-schedule, retry_resuming-schedule, observed, observed_sleep,
}
use aurora_data_api.Tests.Clients.{still_resuming}

-- Fails as often as its state says.
failing : Exec Exn ℕ Text
failing zero = (ok (codes "done"), 0)
failing (suc n) = (raised still_resuming, n)

abbrev no_sleep : ℕ → ℕ → ℕ
no_sleep d n = n

attempts-schedule_example :
    Scheduled is_resuming resuming_delays []
      (attempts is_resuming (observed_sleep no_sleep) (observed failing) resuming_delays (9, []))
attempts-schedule_example = attempts-schedule is_resuming no_sleep failing resuming_delays 9 []

retry_resuming-schedule_example :
    Scheduled is_resuming resuming_delays []
      (retry_resuming (observed_sleep no_sleep) (observed failing) (2, []))
retry_resuming-schedule_example = retry_resuming-schedule no_sleep failing 2 []
