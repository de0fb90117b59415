-- ===== src/Cursor/Execute/Terminated.antt =====
-- `execute` of `AuroraDataAPICursor` in __init__.py, where the refusal of a response that is too large has
-- cost the transaction, as the reason for skipping test_pagination_backoff in test/test.py says.
use aurora_data_api.Base.Text.{Text}
use aurora_data_api.Platform.{Platform}
use aurora_data_api.Env.{Env}
