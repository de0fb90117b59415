-- ===== src/Connect.antt =====
-- `connect`, the constructor of `AuroraDataAPIClient` and `_region_from_arn` in __init__.py.
pub mod Laws
use aurora_data_api.Base.{
  true, false, Bool, Option, none, some, List, [], ◌∷◌, if◌then◌else◌, ◌==◌, get_elem?, ℕ,
}
use aurora_data_api.Base.Text.{Text, codes}
use aurora_data_api.Base.Exec.{Result, ok, raised, diverged}
use aurora_data_api.Errors.Classes.{Exn, new_exn, index_error}
use aurora_data_api.Env.{Connection}
use aurora_data_api.Connection.{is_set}

-- `s.split(sep)` for a separator of one character: the first part, and the others.
unfoldable pub split_on : ℕ → Text → Text × List Text
split_on sep [] = ([], [])
split_on sep (c ∷ s) =
    let (part, parts) = split_on sep s in if c == sep then ([], part ∷ parts) else (c ∷ part, parts)

abbrev pub parts_of : Text × List Text → List Text
parts_of (part, parts) = part ∷ parts

abbrev pub region_part : Option Text → Result Exn Text
region_part none = raised (new_exn index_error (codes "list index out of range"))
region_part (some part) = ok part

-- `_region_from_arn`
pub region_from_arn : Text → Result Exn Text
unfolding split_on
region_from_arn arn = region_part (get_elem? (parts_of (split_on b':' arn)) 3)

-- `a or b` for strings that may be `None`.
abbrev pub or_else : Option Text → Option Text → Option Text
or_else a b = if is_set a then a else b

-- The arguments of `connect` that it passes on; of the client only whether it is given.
pub record ConnectArgs : Type 0 where
  pub aurora_cluster_arn : Option Text
  pub secret_arn : Option Text
  pub has_client : Bool
  pub database : Option Text
  pub charset : Option Text
  pub continue_after_timeout : Option Bool
  pub region_name : Option Text

-- AURORA_CLUSTER_ARN and AURORA_SECRET_ARN.
pub record Environment : Type 0 where
  pub cluster_arn : Option Text
  pub secret_arn : Option Text

-- The region of the client that the constructor makes, if it makes one.
pub data ClientChoice : Type 0 where
  given_client : ClientChoice
  client_in : Option Text → ClientChoice

abbrev chosen : Result Exn Text → Result Exn ClientChoice
chosen (ok region) = ok (client_in (some region))
chosen (raised e) = raised e
chosen diverged = diverged

-- `_region_from_arn(arn_for_region) if arn_for_region else None`
region_of_arn : Option Text → Result Exn ClientChoice
unfolding region_from_arn
region_of_arn (some (c ∷ arn)) = chosen (region_from_arn (c ∷ arn))
region_of_arn _ = ok (client_in none)

-- `region_name or …`
client_region : Option Text → Option Text → Result Exn ClientChoice
unfolding region_of_arn
client_region (some (c ∷ region)) arn = ok (client_in (some (c ∷ region)))
client_region _ arn = region_of_arn arn

choose_client : Bool → Option Text → Option Text → Result Exn ClientChoice
unfolding client_region
choose_client true region arn = ok given_client
choose_client false region arn = client_region region arn

abbrev connected : Connection → Result Exn ClientChoice → Result Exn (ClientChoice × Connection)
connected connection (ok choice) = ok (choice, connection)
connected connection (raised e) = raised e
connected connection diverged = diverged

pub connect : ConnectArgs → Environment → Result Exn (ClientChoice × Connection)
unfolding choose_client
connect args environ =
    let cluster = or_else args.aurora_cluster_arn environ.cluster_arn in
    let secret = or_else args.secret_arn environ.secret_arn in
    connected
      (record {
        aurora_cluster_arn = cluster;
        secret_arn = secret;
        dbname = args.database;
        charset = args.charset;
        continue_after_timeout = args.continue_after_timeout;
        transaction_id = none;
      })
      (choose_client args.has_client args.region_name (or_else cluster secret))
