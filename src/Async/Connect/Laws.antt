-- ===== src/Async/Connect/Laws.antt =====
-- Where `connect` of async_driver.py finds no region, and `connect` of __init__.py finds one.
use aurora_data_api.Base.{◌≡◌, refl, ap, ◌∙◌, true, false, all, Option, none, some, [], ◌∷◌, arith}
use aurora_data_api.Base.Text.{Text}
use aurora_data_api.Base.Exec.{ok, raised}
use aurora_data_api.Platform.{Platform}
use aurora_data_api.Env.{Connection}
use aurora_data_api.Connect as Sync
use aurora_data_api.Connect.{Environment, ClientChoice, client_in, or_else}
use aurora_data_api.Connection.{is_set}
use aurora_data_api.Connect.Laws.{arn, no_colon, connect-region_from_arn}
use aurora_data_api.Async.Lifecycle.{Loop}
use aurora_data_api.Async.Connect as Async

-- The same arguments, with no client.
abbrev pub sync_args : Async.ConnectArgs → Sync.ConnectArgs
sync_args args = record {
  aurora_cluster_arn = args.aurora_cluster_arn;
  secret_arn = args.secret_arn;
  has_client = false;
  database = args.database;
  charset = args.charset;
  continue_after_timeout = args.continue_after_timeout;
  region_name = args.region_name;
}

region_or-none :
    (region_name arn_for_region : Option Text)
    → is_set region_name ≡ false
    → arn_for_region ≡ none
    → Async.region_or region_name arn_for_region ≡ raised Async.no_split
unfolding Async.region_or Async.region_from_arn
region_or-none none arn_for_region h e = rw e refl
region_or-none (some []) arn_for_region h e = rw e refl
region_or-none (some (c ∷ region)) arn_for_region h e = absurd (ground arith)

or_else-arn :
    (a partition service region rest : Text) (other : Option Text)
    → or_else (some (arn a partition service region rest)) other
      ≡ some (arn a partition service region rest)
or_else-arn [] partition service region rest other = refl
or_else-arn (c ∷ a) partition service region rest other = refl

-- If neither a region name nor an ARN is an argument and the cluster's ARN is in the environment,
-- of the form a:partition:service:region:rest with no colon inside the first four parts, then the
-- asynchronous connect raises AttributeError and calls nothing, while the synchronous connect
-- succeeds with the same arguments and no client, in the region of that ARN.
pub connect_without_region :
    {P : Platform} (loop : Loop P) (args : Async.ConnectArgs) (environ : Environment)
    (a partition service region rest : Text) (w : P.State)
    → is_set args.region_name ≡ false
    → args.aurora_cluster_arn ≡ none
    → args.secret_arn ≡ none
    → environ.cluster_arn ≡ some (arn a partition service region rest)
    → all no_colon a ≡ true
    → all no_colon partition ≡ true
    → all no_colon service ≡ true
    → all no_colon region ≡ true
    → (Async.connect loop args environ w ≡ (raised Async.no_split, w))
      × ((connection : Connection) × (Sync.connect (sync_args args) environ
            ≡ ok (client_in (some region), connection)))
unfolding Async.connect
connect_without_region loop args environ a partition service region rest w hr hc hs he ha hp hv hg =
    (
      rw
          (region_or-none args.region_name (or_else args.aurora_cluster_arn args.secret_arn) hr
            (ap (λ c. or_else c args.secret_arn) hc ∙ hs))
          refl,
      connect-region_from_arn (sync_args args) environ a partition service region rest refl hr
          (ap
              (λ c.
                or_else (or_else c environ.cluster_arn)
                  (or_else args.secret_arn environ.secret_arn))
              hc
            ∙ ap (λ c. or_else c (or_else args.secret_arn environ.secret_arn)) he
            ∙ or_else-arn a partition service region rest
                (or_else args.secret_arn environ.secret_arn))
          ha hp hv hg,
    )
