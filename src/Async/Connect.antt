-- ===== src/Async/Connect.antt =====
-- `connect`, the constructor and `_region_from_arn` of async_driver.py.
pub mod Laws
use aurora_data_api.Base.{Bool, Option, none, some, ◌∷◌, get_elem?}
use aurora_data_api.Base.Text.{Text, codes}
use aurora_data_api.Base.Exec.{Result, Exec, ok, raised, lift, ◌>>=◌, ◌>>◌}
use aurora_data_api.Errors.Classes.{Exn, new_exn, attribute_error}
use aurora_data_api.Platform.{Platform}
use aurora_data_api.Env.{Connection}
use aurora_data_api.Connect.{Environment, split_on, parts_of, region_part, or_else}
use aurora_data_api.Async.Lifecycle.{Loop}

-- The arguments of `connect`.
pub record ConnectArgs : Type 0 where
  pub aurora_cluster_arn : Option Text
  pub secret_arn : Option Text
  pub region_name : Option Text
  pub database : Option Text
  pub charset : Option Text
  pub continue_after_timeout : Option Bool

abbrev pub no_split : Exn
no_split = new_exn attribute_error (codes "'NoneType' object has no attribute 'split'")

-- `_region_from_arn`, whose argument may be `None`, which has no `split`.
region_from_arn : Option Text → Result Exn Text
unfolding split_on
region_from_arn none = raised no_split
region_from_arn (some arn) = region_part (get_elem? (parts_of (split_on b':' arn)) 3)

-- `region_name or _region_from_arn(aurora_cluster_arn or secret_arn)`
region_or : Option Text → Option Text → Result Exn Text
unfolding region_from_arn
region_or (some (c ∷ region)) arn = ok (c ∷ region)
region_or _ arn = region_from_arn arn

-- `AsyncAuroraDataAPIClient(…)`
new_connection : ConnectArgs → Environment → Connection
new_connection args environ = record {
  aurora_cluster_arn = or_else args.aurora_cluster_arn environ.cluster_arn;
  secret_arn = or_else args.secret_arn environ.secret_arn;
  dbname = args.database;
  charset = args.charset;
  continue_after_timeout = args.continue_after_timeout;
  transaction_id = none;
}

module _ {P : Platform} (loop : Loop P) where
  pub connect : ConnectArgs → Environment → Exec Exn P.State Connection
  unfolding region_or new_connection
  connect args environ =
      lift (region_or args.region_name (or_else args.aurora_cluster_arn args.secret_arn))
      >>= λ region.
          loop.enter_client (some region) >>= λ _. λ w. (ok (new_connection args environ), w)
