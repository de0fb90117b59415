-- ===== src/Async/Connection/Laws.antt =====
-- Transactions of the asynchronous connection of async_driver.py, and how it differs from the
-- synchronous one of __init__.py.
use mathlib.Core.Path.{fun_ext, subst}
use aurora_data_api.Base.{
  ◌≡◌, ◌≢◌, refl, sym, ap, ◌⊎◌, inl, inr, Bool, true, false, Option, none, some, [], ◌∷◌, ◌∙◌,
  Option-cases, Bool-cases, ℕ, Option-cases,
}
use aurora_data_api.Base.Text.{Text, text_eq, text_eq_iff}
use aurora_data_api.Base.Exec.{
  continue, Result-cases, Ends, Result, Exec, ok, raised, diverged, Ends, Result-cases,
}
use aurora_data_api.Errors.Classes.{Exn}
use aurora_data_api.Retry.{retry_resuming}
use aurora_data_api.Platform.{Platform}
use aurora_data_api.Env.{Env, sleeping}
use aurora_data_api.Connection as Sync
use aurora_data_api.Connection.{end_args, with_transaction, committed_status, set_transaction}
use aurora_data_api.Async.Lifecycle.{Loop, Opened, cancelled}
use aurora_data_api.Async.Lifecycle
use aurora_data_api.Async.Connection as Async
use aurora_data_api.Async.Connection.{Connection, EndArgs}

module _ {P : Platform} where
  once_same :
      (current : Option Text) (env : Env P)
      → Async.begin_or_current current env ≡ Sync.begin_or_current current env
  unfolding Async.begin_or_current Sync.begin_or_current
  once_same (some tx) env = refl
  once_same none env = refl

  -- start_transaction is the same as that of the synchronous connection.
  pub start_transaction_same :
      (env : Env P) → Async.start_transaction env ≡ Sync.start_transaction env
  unfolding Async.start_transaction Sync.start_transaction
  start_transaction_same env =
      ap (λ (once : Exec Exn (Env P) Text). retry_resuming sleeping once env)
        (fun_ext λ env'. once_same env'.connection.transaction_id env')

  -- A commit of an active transaction: the client's answer, and what becomes of the transaction.
  abbrev pub CommitOutcome :
      Env P → Text → Result Exn (Option Text) → Result Exn (Unit {0}) × Env P → Type 0
  CommitOutcome env tx answer (r, env') =
      ((answer ≡ ok (some committed_status))
        × (r ≡ ok tt)
        × (env'.connection ≡ with_transaction none env.connection))
      ⊎ ((answer ≢ ok (some committed_status)) × (r ≢ ok tt) × (env'.connection ≡ env.connection))

  committed_outcome :
      (env : Env P) (tx : Text) (answer : Result Exn (Option Text)) (env' : Env P)
      → env'.connection ≡ env.connection
      → CommitOutcome env tx answer (continue answer Async.committed env')
  unfolding Async.committed
  committed_outcome env tx (ok none) env' e = inr (λ h. cc, λ h. cc, e)
  committed_outcome env tx (raised x) env' e = inr (λ h. cc, λ h. cc, e)
  committed_outcome env tx diverged env' e = inr (λ h. cc, λ h. cc, e)
  committed_outcome env tx (ok (some status)) env' e =
      elim (Bool-cases (text_eq status committed_status)) [
        | inl same ↦ rw same (
            inl (
              ap (λ s. ok (some s)) ((text_eq_iff status committed_status).0 same),
              refl,
              ap (with_transaction none) e,
            ))
        | inr other ↦ rw other (
            inr (
              λ h.
                  let same : status ≡ committed_status = cc in
                  let equal = (text_eq_iff status committed_status).1 same in cc,
              λ h. cc,
              e,
            ))
      ]

  -- Where a transaction is active: the asynchronous commit succeeds and forgets the transaction if
  -- the client answers with the status Transaction Committed; otherwise it does not succeed, and
  -- the connection is unchanged.
  pub commit_async_outcome :
      (env : Env P) (c : ℕ) (tx : Text)
      → env.connection.transaction_id ≡ some (c ∷ tx)
      → CommitOutcome env
          (c ∷ tx)
          (P.commit_transaction (end_args env.connection (c ∷ tx)) env.world).0
          (Async.commit env)
  unfolding Async.commit Async.commit_active
  commit_async_outcome env c tx e =
      subst
        (λ t.
          CommitOutcome env (c ∷ tx)
            (P.commit_transaction (end_args env.connection (c ∷ tx)) env.world).0
            (Async.commit_active t env))
        (sym e) (committed_outcome env (c ∷ tx) _ _ refl)

  module _ (loop : Loop P) where
    -- The arguments of every statement prepared with this connection carry no transaction.
    abbrev CarriesNone : Connection → Type 0
    CarriesNone c =
        (operation : Text) → (Async.prepare_execute_args c operation).transaction_id ≡ none

    shielded-connection :
        (args : EndArgs) (env : Env P)
        → (Async.shielded loop args env).1.connection ≡ env.connection
    unfolding Async.shielded
    shielded-connection args env = elim (Option-cases (loop.rollback_interrupted args env.world)) [
      | inl ends ↦ rw (ends, Async.shielded) refl
      | inr (w, cancels) ↦ rw (cancels, Async.shielded) refl
    ]

    rollback_active-CarriesNone :
        (current : Option Text) (env : Env P)
        → env.connection.transaction_id ≡ current
        → CarriesNone (Async.rollback_active loop current env).1.connection
    unfolding Async.rollback_active Async.prepare_execute_args
    rollback_active-CarriesNone none env e operation = rw e refl
    rollback_active-CarriesNone (some []) env e operation = rw e refl
    rollback_active-CarriesNone (some (c ∷ tx)) env e operation =
        ap (λ k. (Async.prepare_execute_args k operation).transaction_id)
          (shielded-connection (end_args env.connection (c ∷ tx)) (set_transaction none env))

    commit_active-CarriesNone :
        (current : Option Text) (env : Env P)
        → env.connection.transaction_id ≡ current
        → (Async.commit_active current env).0 ≡ ok tt
        → CarriesNone (Async.commit_active current env).1.connection
    unfolding Async.commit_active Async.prepare_execute_args
    commit_active-CarriesNone none env e done operation = rw e refl
    commit_active-CarriesNone (some []) env e done operation = rw e refl
    commit_active-CarriesNone (some (c ∷ tx)) env e done operation =
        elim (committed_outcome env (c ∷ tx)
          (P.commit_transaction (end_args env.connection (c ∷ tx)) env.world).0
          (record env {
            world = (P.commit_transaction (end_args env.connection (c ∷ tx)) env.world).1;
          })
          refl) [
            | inl (_, _, forgotten) ↦ rw forgotten refl
            | inr (_, fails, _) ↦ absurd (fails done)
          ]

    close-connection :
        (ctx : Bool) (o : Opened P)
        → (Lifecycle.release loop ctx o).1.env.connection ≡ o.env.connection
    unfolding Lifecycle.release
    close-connection false o = refl
    close-connection true o = elim (Result-cases (loop.exit_client o.env.world).0) [
      | inl (_, e) ↦ rw e refl
      | inr (inl (x, e)) ↦ rw e refl
      | inr (inr e) ↦ rw e refl
    ]

    and_close_keeps :
        (r : Result Exn (Unit {0})) (o : Opened P)
        → ((Async.and_close loop r o).1.env.connection ≡ o.env.connection)
          × ((Async.and_close loop r o).0 ≡ ok tt → r ≡ ok tt)
    unfolding Async.and_close Lifecycle.close
    and_close_keeps (ok _) o = (close-connection o.client_ctx o, λ h. refl)
    and_close_keeps diverged o = (refl, λ h. h)
    and_close_keeps (raised e) o =
        let same = close-connection o.client_ctx o in
        elim (Result-cases (Lifecycle.release loop o.client_ctx o).0) [
          | inl (_, c) ↦ rw (c, Async.and_close) (same, λ h. h)
          | inr (inl (x, c)) ↦ rw (c, Async.and_close) (same, λ h. absurd (cc))
          | inr (inr c) ↦ rw (c, Async.and_close) (same, λ h. absurd (cc))
        ]

    end_block-CarriesNone :
        (raising : Bool) (env : Env P)
        → (raising ≡ true) ⊎ ((Async.end_block loop raising env).0 ≡ ok tt)
        → CarriesNone (Async.end_block loop raising env).1.connection
    unfolding Async.end_block Async.rollback Async.commit
    end_block-CarriesNone true env h = rollback_active-CarriesNone _ env refl
    end_block-CarriesNone false env (inl h) = absurd (cc)
    end_block-CarriesNone false env (inr done) = commit_active-CarriesNone _ env refl done

    -- If the body of an async with block has raised, or leaving the block returns, then the
    -- arguments of every statement prepared afterwards carry no transaction; where the body has
    -- raised, this holds however the rollback and the closing of the client end, also if the task
    -- is cancelled while it waits for the rollback.
    pub aexit-args :
        (raising : Bool) (o : Opened P) (operation : Text)
        → (raising ≡ true) ⊎ ((Async.aexit loop raising o).0 ≡ ok tt)
        → (Async.prepare_execute_args
            (Async.aexit loop raising o).1.env.connection
            operation).transaction_id
          ≡ none
    unfolding Async.aexit
    aexit-args raising o operation h =
        let ended = Async.end_block loop raising o.env in
        let (same, returned) = and_close_keeps ended.0 (record o { env = ended.1 }) in
        let how : (raising ≡ true) ⊎ (ended.0 ≡ ok tt) = elim h [
          | inl raises ↦ inl raises
          | inr done ↦ inr (returned done)
        ] in
        ap (λ c. (Async.prepare_execute_args c operation).transaction_id) same
        ∙ end_block-CarriesNone raising o.env how operation

    -- The context of the client is left without an exception.
    abbrev pub Exits : Type 0
    Exits = (w : P.State) → (loop.exit_client w).0 ≡ ok tt

    close_releases :
        (exits : Exits) (o : Opened P) (ctx : Bool)
        → o.client_ctx ≡ ctx
        → ((Lifecycle.release loop ctx o).0 ≡ ok tt)
          × ((Lifecycle.release loop ctx o).1.client_ctx ≡ false)
    unfolding Lifecycle.release
    close_releases exits o false e = (refl, e)
    close_releases exits o true e = rw (exits o.env.world) (refl, refl)

    and_close_releases :
        (exits : Exits) (r : Result Exn (Unit {0})) (o : Opened P)
        → Ends r
        → ((Async.and_close loop r o).1.client_ctx ≡ false) × ((Async.and_close loop r o).0 ≡ r)
    unfolding Async.and_close Lifecycle.close
    and_close_releases exits (ok _) o ends =
        let (done, left) = close_releases exits o o.client_ctx refl in (left, done)
    and_close_releases exits (raised e) o ends =
        let (done, left) = close_releases exits o o.client_ctx refl in
        rw (done, Async.and_close) (left, refl)
    and_close_releases exits diverged o ends = absurd ends

    -- If the context of the client can be left without an exception, then leaving an async with
    -- block of a connection leaves no such context open, however its commit or rollback ends (with
    -- a result or an exception, CancelledError included), and ends as that commit or rollback
    -- does.
    pub aexit_releases :
        (raising : Bool) (o : Opened P)
        → Exits
        → Ends (Async.end_block loop raising o.env).0
        → ((Async.aexit loop raising o).1.client_ctx ≡ false)
          × ((Async.aexit loop raising o).0 ≡ (Async.end_block loop raising o.env).0)
    unfolding Async.aexit
    aexit_releases raising o exits ends =
        and_close_releases exits (Async.end_block loop raising o.env).0
          (record o { env = (Async.end_block loop raising o.env).1 }) ends
