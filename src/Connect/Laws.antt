-- ===== src/Connect/Laws.antt =====
-- The region in an ARN, and the client that a connection is made with.
use aurora_data_api.Base.{
  Bool-cases, inl, inr, arith, ◌≡◌, refl, ap, ◌∙◌, Bool, true, false, Option, none, some, [], ◌∷◌,
  ◌++◌, not, all, ◌==◌, ℕ,
}
use aurora_data_api.Base.Text.{Text}
use aurora_data_api.Base.Exec.{ok}
use aurora_data_api.Connect.{
  split_on, region_from_arn, connect, ConnectArgs, Environment, client_in, is_set, or_else,
  Connection, choose_client, client_region, connected, region_of_arn,
}

abbrev pub no_colon : ℕ → Bool
no_colon c = not (c == b':')

split_on-append :
    (part rest : Text)
    → all no_colon part ≡ true
    → split_on b':' (part ++ (b':' ∷ rest))
      ≡ (part, (split_on b':' rest).0 ∷ (split_on b':' rest).1)
unfolding split_on
split_on-append [] rest h = refl
split_on-append (c ∷ part) rest h = elim (Bool-cases (c == b':')) [
  | inl colon ↦ absurd (ground arith)
  | inr other ↦ rw (other, split_on-append part rest (ground arith)) refl
]

abbrev pub arn : Text → Text → Text → Text → Text → Text
arn a partition service region rest =
    a ++ (b':' ∷ (partition ++ (b':' ∷ (service ++ (b':' ∷ (region ++ (b':' ∷ rest)))))))

-- The region of an ARN of the form a:partition:service:region:rest, with no colon inside the first
-- four parts, is its fourth part, whatever colons the rest has.
pub region_from_arn_lem :
    (a partition service region rest : Text)
    → all no_colon a ≡ true
    → all no_colon partition ≡ true
    → all no_colon service ≡ true
    → all no_colon region ≡ true
    → region_from_arn (arn a partition service region rest) ≡ ok region
unfolding region_from_arn
region_from_arn_lem a partition service region rest ha hp hs hr =
    rw
      (
        split_on-append a _ ha,
        split_on-append partition _ hp,
        split_on-append service _ hs,
        split_on-append region rest hr,
      )
      refl

client_region_unset :
    (region_name arn_for_region : Option Text)
    → is_set region_name ≡ false
    → client_region region_name arn_for_region ≡ region_of_arn arn_for_region
unfolding client_region
client_region_unset none _ h = refl
client_region_unset (some []) _ h = refl
client_region_unset (some (c ∷ region)) _ h = absurd (ground arith)

region_of_arn-found :
    (s region : Text)
    → region_from_arn s ≡ ok region
    → region_of_arn (some s) ≡ ok (client_in (some region))
unfolding region_of_arn region_from_arn split_on
region_of_arn-found [] region h = absurd (ground arith)
region_of_arn-found (c ∷ s) region h = rw h refl

choose_client_lem :
    (has_client : Bool) (region_name arn_for_region : Option Text) (s region : Text)
    → has_client ≡ false
    → is_set region_name ≡ false
    → arn_for_region ≡ some s
    → region_from_arn s ≡ ok region
    → choose_client has_client region_name arn_for_region ≡ ok (client_in (some region))
unfolding choose_client
choose_client_lem true region_name arn_for_region s region hc hr ha h = absurd (ground arith)
choose_client_lem false region_name arn_for_region s region hc hr ha h =
    client_region_unset region_name arn_for_region hr
    ∙ ap region_of_arn ha
    ∙ region_of_arn-found s region h

-- If no client and no region name is given, and the ARN that connect chooses (the cluster's before
-- the secret's, each from its argument before the environment) has the form
-- a:partition:service:region:rest, then connect succeeds and makes its client in the region of
-- that ARN.
pub connect-region_from_arn :
    (args : ConnectArgs) (environ : Environment) (a partition service region rest : Text)
    → args.has_client ≡ false
    → is_set args.region_name ≡ false
    → or_else
        (or_else args.aurora_cluster_arn environ.cluster_arn)
        (or_else args.secret_arn environ.secret_arn)
      ≡ some (arn a partition service region rest)
    → all no_colon a ≡ true
    → all no_colon partition ≡ true
    → all no_colon service ≡ true
    → all no_colon region ≡ true
    → (connection : Connection) × (connect args environ ≡ ok (client_in (some region), connection))
unfolding connect
connect-region_from_arn args environ a partition service region rest hc hr he ha hp hs hg =
    let found =
      choose_client_lem args.has_client args.region_name _ (arn a partition service region rest)
        region hc hr he (region_from_arn_lem a partition service region rest ha hp hs hg) in
    (_, ap (connected _) found)
