-- ===== src/Cursor/Batch/Sent.antt =====
-- The requests that `executemany` of `AuroraDataAPICursor` in __init__.py has sent, however it ends.
use mathlib.Core.Path.{subst}
use mathlib.Core.List.{append-nil, append_assoc}
use aurora_data_api.Base.{
  ◌<◌, ◌≡◌, refl, sym, ap, ◌∙◌, Bool-cases, inl, inr, List, [], ◌∷◌, ◌++◌, map, some,
}
use aurora_data_api.Base.Text.{Text}
use aurora_data_api.Base.Exec.{Result, Exec, ok, raised, diverged, continue, handle}
use aurora_data_api.Value.{Stdlib}
use aurora_data_api.Convert.Params.{Param, Parameters, format_parameters}
use aurora_data_api.Errors.Classes.{Exn, bad_request, is_instance}
use aurora_data_api.Platform.{BatchArgs, Platform}
use aurora_data_api.Env.{Env}
use aurora_data_api.Connection.{raise_translated}
use aurora_data_api.Cursor.Batch.{
  batch_args, format_batch, batch_failed, send_batch, send_batches, page_input, executemany_once,
}
use aurora_data_api.Cursor.Execute.Frame.{or_arraysize-le}
use aurora_data_api.Cursor.Batch.Laws.{joined, page_input-joined}

abbrev observed : {S A : Type 0} → Exec Exn S A → Exec Exn (S × List BatchArgs) A
observed m (s, log) = let (r, s') = m s in (r, (s', log))

-- The client, with a record of the requests of `batch_execute_statement`.
abbrev pub Recording : Platform → Platform
Recording P = record {
  State = P.State × List BatchArgs;
  execute_statement = λ args. observed (P.execute_statement args);
  batch_execute_statement = λ args (s, log).
      let (r, s') = P.batch_execute_statement args s in (r, (s', log ++ (args ∷ [])));
  begin_transaction = λ args. observed (P.begin_transaction args);
  commit_transaction = λ args. observed (P.commit_transaction args);
  rollback_transaction = λ args. observed (P.rollback_transaction args);
  sleep = λ d (s, log). (P.sleep d s, log);
  cursor_suffix = λ (s, log). let (suffix, s') = P.cursor_suffix s in (suffix, (s', log));
}

-- The first set and the others.
abbrev both :
    Result Exn (List Param) → Result Exn (List (List Param)) → Result Exn (List (List Param))
both r q = elim r [
  | raised e ↦ raised e
  | diverged ↦ diverged
  | ok params ↦ elim q [ raised e ↦ raised e | diverged ↦ diverged | ok rest ↦ ok (params ∷ rest) ]
]

both-ok :
    (r : Result Exn (List Param)) (q : Result Exn (List (List Param))) (sets : List (List Param))
    → both r q ≡ ok sets
    → (params : List Param) × (rest : List (List Param)) × (sets ≡ params ∷ rest)
      × (r ≡ ok params)
      × (q ≡ ok rest)
both-ok (ok params) (ok rest) sets e =
    let same : sets ≡ params ∷ rest = cc in (params, rest, same, refl, refl)
both-ok (ok params) (raised x) sets e = absurd (cc)
both-ok (ok params) diverged sets e = absurd (cc)
both-ok (raised x) q sets e = absurd (cc)
both-ok diverged q sets e = absurd (cc)

module _ (L : Stdlib) where
  format_batch_split :
      (p : Parameters) (batch : List Parameters) (sets : List (List Param))
      → format_batch L (p ∷ batch) ≡ ok sets
      → (params : List Param) × (rest : List (List Param)) × (sets ≡ params ∷ rest)
        × (format_parameters L p ≡ ok params)
        × (format_batch L batch ≡ ok rest)
  unfolding format_batch
  format_batch_split p batch sets e = both-ok (format_parameters L p) (format_batch L batch) sets e

  format_batch_cons :
      (p : Parameters) (batch : List Parameters) (params : List Param) (rest : List (List Param))
      → format_parameters L p ≡ ok params
      → format_batch L batch ≡ ok rest
      → format_batch L (p ∷ batch) ≡ ok (params ∷ rest)
  unfolding format_batch
  format_batch_cons p batch params rest ep er =
      ap (λ r. both r (format_batch L batch)) ep ∙ ap (both (ok params)) er

  format_batch-append :
      (xs ys : List Parameters) (sets : List (List Param))
      → format_batch L (xs ++ ys) ≡ ok sets
      → (front : List (List Param)) × (back : List (List Param)) × (sets ≡ front ++ back)
        × (format_batch L xs ≡ ok front)
        × (format_batch L ys ≡ ok back)
  unfolding format_batch
  format_batch-append [] ys sets e = ([], sets, refl, refl, e)
  format_batch-append (p ∷ xs) ys sets e =
      let (params, rest, same, ep, er) = format_batch_split p (xs ++ ys) sets e in
      let (front, back, same', ef, eb) = format_batch-append xs ys rest er in
      (
        params ∷ front,
        back,
        same ∙ ap (◌∷◌ params) same',
        format_batch_cons p xs params front ep ef,
        eb,
      )

-- However the run ends, it has sent requests for the first of the parameter sets, in order and each
-- once, and for all of them if it succeeds.
abbrev pub Sent :
    (P : Platform)
    → Text
    → List (List Param)
    → Env (Recording P)
    → Result Exn (Unit {0}) × Env (Recording P)
    → Type 0
Sent P operation sets env (r, env') =
    (sent : List (List (List Param))) × (rest : List (List Param)) × (env'.world.1
      ≡ env.world.1 ++ map (batch_args env.connection operation) sent)
    × (sets ≡ joined sent ++ rest)
    × (r ≡ ok tt → rest ≡ [])

-- One request has been sent, and the connection is the same.
abbrev OneSent :
    (P : Platform)
    → Text
    → List (List Param)
    → Env (Recording P)
    → Result Exn (Unit {0}) × Env (Recording P)
    → Type 0
OneSent P operation sets env (r, env') =
    (env'.world.1 ≡ env.world.1 ++ (batch_args env.connection operation sets ∷ []))
    × (env'.connection ≡ env.connection)

module _ (P : Platform) (L : Stdlib) (operation : Text) where
  batch_failed-OneSent :
      (sets : List (List Param)) (env env' : Env (Recording P)) (e : Exn)
      → env'.world.1 ≡ env.world.1 ++ (batch_args env.connection operation sets ∷ [])
      → env'.connection ≡ env.connection
      → OneSent P operation sets env (batch_failed L e env')
  unfolding batch_failed raise_translated
  batch_failed-OneSent sets env env' e logged same = elim (Bool-cases (is_instance e bad_request)) [
    | inl bad ↦ rw bad (logged, same)
    | inr other ↦ rw other (logged, same)
  ]

  answered-OneSent :
      (sets : List (List Param)) (env env' : Env (Recording P)) (r : Result Exn (Unit {0}))
      → env'.world.1 ≡ env.world.1 ++ (batch_args env.connection operation sets ∷ [])
      → env'.connection ≡ env.connection
      → OneSent P operation sets env (handle r (batch_failed L) env')
  answered-OneSent sets env env' (ok _) logged same = (logged, same)
  answered-OneSent sets env env' (raised e) logged same =
      batch_failed-OneSent sets env env' e logged same
  answered-OneSent sets env env' diverged logged same = (logged, same)

  send_batch-OneSent :
      (batch : List Parameters) (sets : List (List Param)) (env : Env (Recording P))
      → format_batch L batch ≡ ok sets
      → OneSent P operation sets env (send_batch L operation batch env)
  unfolding send_batch
  send_batch-OneSent batch sets env e =
      let (r, s) =
        P.batch_execute_statement (batch_args env.connection operation sets) env.world.0 in
      rw e (answered-OneSent sets env _ r refl refl)

  continue-Sent :
      (batches : List (List Parameters)) (front back : List (List Param))
      (r : Result Exn (Unit {0})) (env env' : Env (Recording P))
      → OneSent P operation front env (r, env')
      → Sent P operation back env' (send_batches L operation batches env')
      → Sent P operation
          (front ++ back)
          env
          (continue r (λ _. send_batches L operation batches) env')
  continue-Sent batches front back (ok _) env env' (logged, same) (sent, rest, logged', all, done) =
      (
        front ∷ sent,
        rest,
        logged'
            ∙ ap (λ l. l ++ map (batch_args env'.connection operation) sent) logged
            ∙ append_assoc env.world.1 (batch_args env.connection operation front ∷ [])
                (map (batch_args env'.connection operation) sent)
            ∙ ap
                (λ c.
                  env.world.1
                  ++ (batch_args env.connection operation front
                      ∷ map (batch_args c operation) sent))
                same,
        ap (λ l. front ++ l) all ∙ sym (append_assoc front (joined sent) rest),
        done,
      )
  continue-Sent batches front back (raised e) env env' (logged, same) h =
      (front ∷ [], back, logged, ap (λ l. l ++ back) (sym (append-nil front)), λ bad. absurd (cc))
  continue-Sent batches front back diverged env env' (logged, same) h =
      (front ∷ [], back, logged, ap (λ l. l ++ back) (sym (append-nil front)), λ bad. absurd (cc))

  send_batches-Sent :
      (batches : List (List Parameters)) (sets : List (List Param)) (env : Env (Recording P))
      → format_batch L (joined batches) ≡ ok sets
      → Sent P operation sets env (send_batches L operation batches env)
  unfolding send_batches format_batch
  send_batches-Sent [] sets env e = ([], sets, sym (append-nil env.world.1), refl, λ done. cc)
  send_batches-Sent (batch ∷ batches) sets env e =
      let (front, back, same, ef, eb) = format_batch-append L batch (joined batches) sets e in
      let (r, env') = send_batch L operation batch env in
      subst
        (λ sets.
          Sent P operation sets env (continue r (λ _. send_batches L operation batches) env'))
        (sym same)
        (continue-Sent batches front back r env env' (send_batch-OneSent batch front env ef)
          (send_batches-Sent batches back env' eb))

  -- If the array size is not zero and all parameters can be formatted, then one run of the body of
  -- executemany, however it ends, has sent the statement with the first of the formatted parameter
  -- sets, in order and each once, in requests with the arguments of the connection, and has sent
  -- all of them if it succeeds; other requests of this kind it has not sent.
  pub executemany_once-Sent :
      (seq_of_parameters : List Parameters) (sets : List (List Param)) (env : Env (Recording P))
      → 0 < env.cursor.arraysize
      → format_batch L seq_of_parameters ≡ ok sets
      → Sent P operation sets env (executemany_once L operation seq_of_parameters env)
  unfolding executemany_once
  executemany_once-Sent seq_of_parameters sets env size e =
      let size_of_page = some env.cursor.arraysize in
      let (all, _) =
        page_input-joined seq_of_parameters size_of_page env.cursor.arraysize
          (or_arraysize-le size_of_page env.cursor.arraysize size) in
      send_batches-Sent (page_input seq_of_parameters size_of_page env.cursor.arraysize) sets env
        (ap (format_batch L) all ∙ e)
