-- ===== src/Connection/Laws.antt =====
-- Transactions of one connection: which statements carry the transaction, and when it is forgotten.
use aurora_data_api.Base.{
  ◌≡◌, ◌≢◌, refl, sym, ◌∙◌, ◌⊎◌, inl, inr, Bool, true, false, Option, none, some, [], ◌∷◌, arith,
  Bool-cases, ℕ, ◌↔◌,
}
use aurora_data_api.Base.Text.{Text, text_eq_iff}
use aurora_data_api.Base.Exec.{ok, Result-cases}
use aurora_data_api.Retry.Laws.{retry_resuming_ensures, retry_resuming_once}
use aurora_data_api.Platform.{Platform}
use aurora_data_api.Env.{Env}
use aurora_data_api.Connection.{
  prepare_execute_args, begin_or_current, start_transaction_once, start_transaction, commit_active,
  committed, commit, rollback_active, rollback, exit_connection, Exn, begin_failed,
  raise_translated, sleeping, is_database_exception, end_args, with_transaction, committed_status,
}

module _ {P : Platform} where
  raise_translated_ne_ok :
      {A : Type 0} (e : Exn) (env : Env P) (a : A) (env' : Env P)
      → raise_translated e env ≢ (ok a, env')
  unfolding raise_translated
  raise_translated_ne_ok e env a env' h = ground arith

  begin_failed_ne_ok :
      {A : Type 0} (e : Exn) (env : Env P) (a : A) (env' : Env P)
      → begin_failed e env ≢ (ok a, env')
  unfolding begin_failed
  begin_failed_ne_ok e env a env' h = elim (Bool-cases (is_database_exception e)) [
    | inl db ↦ raise_translated_ne_ok e env a env' (rw db at h)
    | inr other ↦ ground arith
  ]

  begin_or_current_sets :
      (current : Option Text) (env : Env P) (tx : Text) (env' : Env P)
      → env.connection.transaction_id ≡ current
      → begin_or_current current env ≡ (ok tx, env')
      → env'.connection.transaction_id ≡ some tx
  unfolding begin_or_current
  begin_or_current_sets (some t) env tx env' h e = ground arith
  begin_or_current_sets none env tx env' h e = ground (
    arith,
    λ (x : Exn) (w : P.State). begin_failed_ne_ok x (record env { world = w }) (some tx) env',
  )

  -- If start_transaction returns an id, that id is the connection's current transaction
  -- afterwards.
  pub start_transaction_sets :
      (env : Env P) (tx : Text) (env' : Env P)
      → start_transaction env ≡ (ok tx, env')
      → env'.connection.transaction_id ≡ some tx
  unfolding start_transaction start_transaction_once
  start_transaction_sets env tx env' e =
      retry_resuming_ensures sleeping start_transaction_once
        (λ t v. v.connection.transaction_id ≡ some t)
        (λ v t v' h. begin_or_current_sets v.connection.transaction_id v t v' refl h) env tx env' e

  -- If start_transaction has returned an id that is not empty, the arguments of every statement
  -- prepared afterwards carry it.
  pub start_transaction-args :
      (env : Env P) (c : ℕ) (tx operation : Text) (env' : Env P)
      → start_transaction env ≡ (ok (c ∷ tx), env')
      → (prepare_execute_args env'.connection operation).transaction_id ≡ some (c ∷ tx)
  unfolding prepare_execute_args
  start_transaction-args env c tx operation env' e = rw (start_transaction_sets env (c ∷ tx) env' e)

  -- If start_transaction has returned an id, a second call returns the same id and changes
  -- nothing.
  pub start_transaction_again :
      (env : Env P) (tx : Text) (env' : Env P)
      → start_transaction env ≡ (ok tx, env')
      → start_transaction env' ≡ (ok tx, env')
  unfolding start_transaction start_transaction_once begin_or_current
  start_transaction_again env tx env' e =
      let current = start_transaction_sets env tx env' e in
      let once : start_transaction_once env' ≡ (ok tx, env') = rw (current, begin_or_current) in
      retry_resuming_once sleeping start_transaction_once env' (rw once (λ bad. bad)) ∙ once

  committed_state : (s : Option Text) (env : Env P) → (committed s env).1 ≡ env
  unfolding committed
  committed_state none env = refl
  committed_state (some status) env = ground arith

  committed_ok :
      (s : Option Text) (env : Env P) → ((committed s env).0 ≡ ok tt) ↔ (s ≡ some committed_status)
  unfolding committed
  committed_ok none env = ground arith
  committed_ok (some status) env = ground (arith, text_eq_iff status committed_status)

  rollback_lem :
      (env : Env P) (tx : Option Text)
      → env.connection.transaction_id ≡ tx
      → rollback env ≡ rollback_active tx env
  unfolding rollback
  rollback_lem env tx e = rw (e, rollback)

  commit_lem :
      (env : Env P) (tx : Option Text)
      → env.connection.transaction_id ≡ tx
      → commit env ≡ commit_active tx env
  unfolding commit
  commit_lem env tx e = rw (e, commit)

  -- Where a transaction is active: if commit_transaction answers, the transaction is forgotten,
  -- and commit succeeds exactly when the status is Transaction Committed; if it does not answer,
  -- the connection is unchanged and commit does not succeed.
  pub commit_outcome :
      (env : Env P) (c : ℕ) (tx : Text)
      → env.connection.transaction_id ≡ some (c ∷ tx)
      → ((s : Option Text) × ((P.commit_transaction (end_args env.connection (c ∷ tx)) env.world).0
            ≡ ok s)
          × ((commit env).1.connection ≡ with_transaction none env.connection)
          × ((commit env).0 ≡ ok tt ↔ s ≡ some committed_status))
        ⊎ (((s : Option Text)
              → (P.commit_transaction (end_args env.connection (c ∷ tx)) env.world).0 ≢ ok s)
            × ((commit env).1.connection ≡ env.connection)
            × ((commit env).0 ≢ ok tt))
  unfolding commit_active
  commit_outcome env c tx active =
      rw (commit_lem env (some (c ∷ tx)) active)
        (elim (Result-cases (P.commit_transaction (end_args env.connection (c ∷ tx)) env.world).0) [
          | inl (s, answered) ↦ inl (
            s,
            answered,
            rw (answered, commit_active, committed_state),
            rw (answered, commit_active) (committed_ok s _),
          )
          | inr (inl (x, failed)) ↦
              inr (λ s h. cc, rw (failed, commit_active), rw (failed, commit_active) (λ h. cc))
          | inr (inr stuck) ↦
              inr (λ s h. cc, rw (stuck, commit_active), rw (stuck, commit_active) (λ h. cc))
        ])

  -- How `rollback` ends where a transaction is active: forgotten when the client has answered, and
  -- kept when it has raised.
  rollback_outcome :
      (env : Env P) (c : ℕ) (tx : Text)
      → env.connection.transaction_id ≡ some (c ∷ tx)
      → (((rollback env).1.connection ≡ with_transaction none env.connection)
          × ((rollback env).0 ≡ ok tt))
        ⊎ (((rollback env).1.connection ≡ env.connection) × ((rollback env).0 ≢ ok tt))
  unfolding rollback_active
  rollback_outcome env c tx active =
      rw (rollback_lem env (some (c ∷ tx)) active)
        (elim (Result-cases
          (P.rollback_transaction (end_args env.connection (c ∷ tx)) env.world).0) [
            | inl (s, answered) ↦
                inl (rw (answered, rollback_active), rw (answered, rollback_active))
            | inr (inl (x, failed)) ↦
                inr (rw (failed, rollback_active), rw (failed, rollback_active) (λ h. cc))
            | inr (inr stuck) ↦
                inr (rw (stuck, rollback_active), rw (stuck, rollback_active) (λ h. cc))
          ])

  no_transaction :
      (env env' : Env P) (operation : Text)
      → env'.connection ≡ with_transaction none env.connection
      → (prepare_execute_args env'.connection operation).transaction_id ≡ none
  unfolding prepare_execute_args
  no_transaction env env' operation e = rw e

  commit-args :
      (current : Option Text) (env env' : Env P) (operation : Text)
      → env.connection.transaction_id ≡ current
      → commit env ≡ (ok tt, env')
      → (prepare_execute_args env'.connection operation).transaction_id ≡ none
  unfolding prepare_execute_args commit_active
  commit-args none env env' operation h e =
      let same = sym (commit_lem env none h) ∙ e in ground arith
  commit-args (some []) env env' operation h e =
      let same = sym (commit_lem env (some []) h) ∙ e in ground arith
  commit-args (some (c ∷ tx)) env env' operation h e = elim (commit_outcome env c tx h) [
    | inl (s, answered, forgotten, status) ↦ no_transaction env env' operation (rw e at forgotten)
    | inr (failed, kept, bad) ↦ absurd (bad (rw e))
  ]

  rollback-args :
      (current : Option Text) (env env' : Env P) (operation : Text)
      → env.connection.transaction_id ≡ current
      → rollback env ≡ (ok tt, env')
      → (prepare_execute_args env'.connection operation).transaction_id ≡ none
  unfolding prepare_execute_args rollback_active
  rollback-args none env env' operation h e =
      let same = sym (rollback_lem env none h) ∙ e in ground arith
  rollback-args (some []) env env' operation h e =
      let same = sym (rollback_lem env (some []) h) ∙ e in ground arith
  rollback-args (some (c ∷ tx)) env env' operation h e = elim (rollback_outcome env c tx h) [
    | inl (forgotten, done) ↦ no_transaction env env' operation (rw e at forgotten)
    | inr (kept, bad) ↦ absurd (bad (rw e))
  ]

  -- If leaving a with block returns, the arguments of every statement prepared afterwards carry no
  -- transaction, whether the body raised or not.
  pub exit_connection-args :
      (raising : Bool) (env : Env P) (operation : Text) (env' : Env P)
      → exit_connection raising env ≡ (ok tt, env')
      → (prepare_execute_args env'.connection operation).transaction_id ≡ none
  unfolding exit_connection
  exit_connection-args true env operation env' e = rollback-args _ env env' operation refl e
  exit_connection-args false env operation env' e = commit-args _ env env' operation refl e
