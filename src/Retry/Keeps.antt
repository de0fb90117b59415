-- ===== src/Retry/Keeps.antt =====
-- What a decorated callable keeps, and that it ends.
use aurora_data_api.Base.{ℕ, Bool, Bool-cases, inl, inr, List, [], ◌∷◌}
use aurora_data_api.Base.Exec.{Exec, Result-cases}
use aurora_data_api.Base.Keeps.{Keeps, Preorder}
use aurora_data_api.Errors.Classes.{Exn}
use aurora_data_api.Retry.Laws.{run_ok, run_other, run_again, run_diverged}
use aurora_data_api.Retry.{attempts, retry_resuming, resuming_delays}

module _ {S A : Type 0} {R : S → S → Type 0} (order : Preorder R) where
  pub attempts-Keeps :
      (retryable : Exn → Bool) (sleep : ℕ → S → S) (fn : Exec Exn S A)
      → ((d : ℕ) (s : S) → R s (sleep d s))
      → Keeps R fn
      → (delays : List ℕ) → Keeps R (attempts retryable sleep fn delays)
  unfolding attempts
  attempts-Keeps retryable sleep fn h k [] = record { keeps = λ s. k.keeps s }
  attempts-Keeps retryable sleep fn h k (d ∷ delays) =
      let rest = attempts-Keeps retryable sleep fn h k delays in
      record {
        keeps = λ s. elim (Result-cases (fn s).0) [
          | inl (a, e) ↦ rw (run_ok retryable sleep fn d delays s e) (k.keeps s)
          | inr (inr e) ↦ rw (run_diverged retryable sleep fn d delays s e) (k.keeps s)
          | inr (inl (x, e)) ↦ elim (Bool-cases (retryable x)) [
            | inr other ↦ rw (run_other retryable sleep fn d delays s e other) (k.keeps s)
            | inl again ↦ rw (run_again retryable sleep fn d delays s e again) (
                order.after _ _ _ (order.after _ _ _ (k.keeps s) (h d (fn s).1))
                  (rest.keeps (sleep d (fn s).1)))
          ]
        ];
      }

  pub retry_resuming-Keeps :
      (sleep : ℕ → S → S) (fn : Exec Exn S A)
      → ((d : ℕ) (s : S) → R s (sleep d s))
      → Keeps R fn
      → Keeps R (retry_resuming sleep fn)
  unfolding retry_resuming
  retry_resuming-Keeps sleep fn h k = attempts-Keeps _ sleep fn h k resuming_delays
