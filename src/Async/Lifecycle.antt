-- ===== src/Async/Lifecycle.antt =====
-- The client of an `AsyncAuroraDataAPIClient`: who made it, and the context that it is released by.
use aurora_data_api.Base.{Bool, true, false, Option, []}
use aurora_data_api.Base.Text.{Text, codes}
use aurora_data_api.Base.Exec.{Exec, ok, ◌>>=◌}
use aurora_data_api.Errors.Classes.{Exn, new_exn, other_base_exception}
use aurora_data_api.Platform.{EndArgs, Platform}
use aurora_data_api.Env.{Env}

-- What the driver calls besides the client: the context of an aioboto3 client, and the event loop.
pub record Loop (P : Platform) : Type 0 where
  -- `session.client("rds-data", region_name=…).__aenter__()`
  pub enter_client : Option Text → Exec Exn P.State (Unit {0})
  -- `__aexit__(None, None, None)`
  pub exit_client : Exec Exn P.State (Unit {0})
  -- what the shielded wait for a request to roll back, sent in this state, comes to: `none` if the
  -- request ends first, and otherwise the task is cancelled and the outside world is left like this,
  -- whether the request has landed by then, lands later, or never does
  pub rollback_interrupted : EndArgs → P.State → Option P.State

-- A connection with its cursor, and the attributes `client` and `_client_ctx`: whether they are set.
pub record Opened (P : Platform) : Type 0 where
  pub env : Env P
  pub region_name : Option Text
  pub client : Bool
  pub client_ctx : Bool

abbrev pub cancelled : Exn
cancelled = new_exn (other_base_exception (codes "CancelledError")) []

module _ {P : Platform} where
  abbrev pub on_env : {A : Type 0} → Exec Exn (Env P) A → Exec Exn (Opened P) A
  on_env m o = let (r, env) = m o.env in (r, record o { env = env })

  abbrev pub on_world : {A : Type 0} → Exec Exn P.State A → Exec Exn (Opened P) A
  on_world m o = let (r, w) = m o.env.world in (r, record o { env = record o.env { world = w } })

  module _ (loop : Loop P) where
    -- `connect`
    open_client : Bool → Exec Exn (Opened P) (Unit {0})
    open_client true o = (ok tt, o)
    open_client false o =
        (on_world (loop.enter_client o.region_name) >>= λ _.
        λ o'. (ok tt, record o' { client = true }))
          (record o { client_ctx = true })

    pub connect : Exec Exn (Opened P) (Unit {0})
    unfolding open_client
    connect o = open_client o.client o

    -- `close`
    unfoldable pub release : Bool → Exec Exn (Opened P) (Unit {0})
    release false o = (ok tt, o)
    release true o =
        (on_world loop.exit_client >>= λ _.
        λ o'. (ok tt, record o' { client = false; client_ctx = false }))
          o

    unfoldable pub close : Exec Exn (Opened P) (Unit {0})
    unfolding release
    close o = release o.client_ctx o
