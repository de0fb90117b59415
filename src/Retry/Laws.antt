-- ===== src/Retry/Laws.antt =====
-- How often a decorated callable runs, what is slept, and which exception comes out.
use mathlib.Core.List.{append-nil, append_assoc}
use mathlib.Core.Path.{fun_ext}
use aurora_data_api.Base.{
  ℕ, zero, suc, ◌≤◌, ◌≡◌, refl, sym, ap, ◌∙◌, inl, inr, Bool, true, false, List, [], ◌∷◌, ◌++◌,
  arith, Bool-cases, length,
}
use aurora_data_api.Base.Text.{Text, text_eq, contains, text_eq_iff, contains-append}
use aurora_data_api.Base.Exec.{Result, Result-cases, Exec, ok, raised, diverged}
use aurora_data_api.Errors.Classes.{Exn, class_name}
use aurora_data_api.Retry.{
  should_retry, attempts, retry_exceptions, retry_resuming, resuming_name, resuming_delays, single,
  type_name,
}

-- What a run does that can be seen from outside.
pub data Event : Type 0 where
  called : Event
  slept : ℕ → Event

-- Calls with the first `k` delays between them.
abbrev pub schedule : ℕ → List ℕ → List Event
schedule zero delays = called ∷ []
schedule (suc k) [] = called ∷ []
schedule (suc k) (d ∷ delays) = called ∷ slept d ∷ schedule k delays

abbrev pub observed_sleep : {S : Type 0} → (ℕ → S → S) → ℕ → S × List Event → S × List Event
observed_sleep sleep d (s, log) = (sleep d s, log ++ (slept d ∷ []))

abbrev pub observed : {S A : Type 0} → Exec Exn S A → Exec Exn (S × List Event) A
observed fn (s, log) = let (r, s') = fn s in (r, (s', log ++ (called ∷ [])))

abbrev pub Retryable : {A : Type 0} → (Exn → Bool) → Result Exn A → Type 0
Retryable retryable (raised e) = retryable e ≡ true
Retryable retryable _ = ⊥

-- The run `m` has called `k` times more than once, as the delays say.
abbrev pub Scheduled :
    {S A : Type 0} → (Exn → Bool) → List ℕ → List Event → Result Exn A × (S × List Event) → Type 0
Scheduled retryable delays log (r, (s', log')) =
    (k : ℕ) × (k ≤ length delays)
    × (log' ≡ log ++ schedule k delays)
    × (Retryable retryable r → k ≡ length delays)

module _ {S A : Type 0} (retryable : Exn → Bool) (sleep : ℕ → S → S) (fn : Exec Exn S A) where
  pub run_ok :
      (d : ℕ) (delays : List ℕ) (s : S) {a : A}
      → (fn s).0 ≡ ok a
      → attempts retryable sleep fn (d ∷ delays) s ≡ (ok a, (fn s).1)
  unfolding attempts
  run_ok d delays s e = rw (e, attempts)

  pub run_diverged :
      (d : ℕ) (delays : List ℕ) (s : S)
      → (fn s).0 ≡ diverged
      → attempts retryable sleep fn (d ∷ delays) s ≡ (diverged, (fn s).1)
  unfolding attempts
  run_diverged d delays s e = rw (e, attempts)

  pub run_other :
      (d : ℕ) (delays : List ℕ) (s : S) {x : Exn}
      → (fn s).0 ≡ raised x
      → retryable x ≡ false
      → attempts retryable sleep fn (d ∷ delays) s ≡ (raised x, (fn s).1)
  unfolding attempts
  run_other d delays s e other = rw (e, attempts, other)

  pub run_again :
      (d : ℕ) (delays : List ℕ) (s : S) {x : Exn}
      → (fn s).0 ≡ raised x
      → retryable x ≡ true
      → attempts retryable sleep fn (d ∷ delays) s
        ≡ attempts retryable sleep fn delays (sleep d (fn s).1)
  unfolding attempts
  run_again d delays s e again = rw (e, attempts, again)

module _ {S A : Type 0} (retryable : Exn → Bool) (sleep : ℕ → S → S) (fn : Exec Exn S A) where
  -- For any delays and any test for exceptions, a run calls the callable once more than the number
  -- of delays that it sleeps, these are the first of the delays in order and stand between the
  -- calls, and the run ends in a retryable exception only when it has slept all of them.
  pub attempts-schedule :
      (delays : List ℕ) (s : S) (log : List Event)
      → Scheduled retryable delays log
          (attempts retryable (observed_sleep sleep) (observed fn) delays (s, log))
  unfolding attempts
  attempts-schedule [] s log = (0, omega arith, refl, λ _. refl)
  attempts-schedule (d ∷ delays) s log = elim (Result-cases (fn s).0) [
    | inl (a, e) ↦
        rw (run_ok retryable (observed_sleep sleep) (observed fn) d delays (s, log) e)
          (0, omega arith, refl, λ bad. absurd bad)
    | inr (inr e) ↦
        rw (run_diverged retryable (observed_sleep sleep) (observed fn) d delays (s, log) e)
          (0, omega arith, refl, λ bad. absurd bad)
    | inr (inl (x, e)) ↦ elim (Bool-cases (retryable x)) [
      | inr other ↦
          rw (run_other retryable (observed_sleep sleep) (observed fn) d delays (s, log) e other)
            (0, omega arith, refl, λ bad. absurd (ground arith))
      | inl again ↦
          rw (run_again retryable (observed_sleep sleep) (observed fn) d delays (s, log) e again) (
            let (k, bound, logged, used) =
              attempts-schedule delays (sleep d (fn s).1)
                (log ++ (called ∷ []) ++ (slept d ∷ [])) in
            (suc k, omega arith, logged ∙ simp append_assoc, λ bad. ap suc (used bad)))
    ]
  ]

module _ {S A : Type 0} (retryable : Exn → Bool) (sleep : ℕ → S → S) (fn : Exec Exn S A) where
  -- A callable that does not raise a retryable exception on its first call is run exactly once,
  -- with no sleep.
  pub attempts_once :
      (delays : List ℕ) (s : S)
      → ¬ Retryable retryable (fn s).0
      → attempts retryable sleep fn delays s ≡ fn s
  unfolding attempts
  attempts_once [] s once = refl
  attempts_once (d ∷ delays) s once = elim (Result-cases (fn s).0) [
    | inl (a, e) ↦ run_ok retryable sleep fn d delays s e ∙ ground arith
    | inr (inr e) ↦ run_diverged retryable sleep fn d delays s e ∙ ground arith
    | inr (inl (x, e)) ↦ elim (Bool-cases (retryable x)) [
      | inr other ↦ run_other retryable sleep fn d delays s e other ∙ ground arith
      | inl again ↦ absurd (once (rw e again))
    ]
  ]

contains_self : (n : Text) → contains n n ≡ true
contains_self n = rw append-nil at (contains-append [] n [])

-- One name among the exceptions is looked for inside the name of the raised class.
pub should_retry_name :
    (e : Exn) (n : Text) → should_retry e [] (n ∷ []) ≡ contains n (class_name e.cls)
unfolding should_retry
should_retry_name e n = elim (Bool-cases (text_eq (class_name e.cls) n)) [
  | inl same ↦
      let within : contains n (class_name e.cls) ≡ true =
        rw ((text_eq_iff (class_name e.cls) n).0 same) (contains_self n) in
      ground arith
  | inr other ↦ ground arith
]

abbrev pub is_resuming : Exn → Bool
is_resuming e = contains resuming_name (class_name e.cls)

decorator_is_resuming :
    {S A : Type 0} (sleep : ℕ → S → S) (fn : Exec Exn S A)
    → retry_exceptions resuming_delays (single (type_name resuming_name)) sleep fn
      ≡ ok (retry_resuming sleep fn)
unfolding retry_exceptions retry_resuming
decorator_is_resuming sleep fn = refl

resuming_retryable : (e : Exn) → should_retry e [] (resuming_name ∷ []) ≡ is_resuming e
resuming_retryable e = should_retry_name e resuming_name

module _ {S A : Type 0} (sleep : ℕ → S → S) (fn : Exec Exn S A) where
  retry_resuming_lem :
      (s : S) → retry_resuming sleep fn s ≡ attempts is_resuming sleep fn resuming_delays s
  unfolding retry_resuming
  retry_resuming_lem s =
      ap (λ (p : Exn → Bool). attempts p sleep fn resuming_delays s) (fun_ext resuming_retryable)

  -- A body that does not raise the exception of a resuming database runs once.
  pub retry_resuming_once :
      (s : S) → ¬ Retryable is_resuming (fn s).0 → retry_resuming sleep fn s ≡ fn s
  retry_resuming_once s once =
      retry_resuming_lem s ∙ attempts_once is_resuming sleep fn resuming_delays s once

module _ {S A : Type 0} (sleep : ℕ → S → S) (fn : Exec Exn S A) where
  -- A run of a decorated method calls the method once more than the number of delays that it
  -- sleeps, these are the first of 4, 2, 2 and 4 in this order and stand between the calls, and
  -- the run ends in an exception of a resuming database only when it has slept all four.
  pub retry_resuming-schedule :
      (s : S) (log : List Event)
      → Scheduled is_resuming resuming_delays log
          (retry_resuming (observed_sleep sleep) (observed fn) (s, log))
  retry_resuming-schedule s log =
      rw (retry_resuming_lem (observed_sleep sleep) (observed fn) (s, log))
        (attempts-schedule is_resuming sleep fn resuming_delays s log)

-- What every successful call guarantees, a decorated callable guarantees.
module _ {S A : Type 0} (retryable : Exn → Bool) (sleep : ℕ → S → S) (fn : Exec Exn S A) where
  pub attempts_ensures :
      (Q : A → S → Type 0)
      → ((s : S) (a : A) (s' : S) → fn s ≡ (ok a, s') → Q a s')
      → (delays : List ℕ) (s : S) (a : A) (s' : S)
      → attempts retryable sleep fn delays s ≡ (ok a, s')
      → Q a s'
  unfolding attempts
  attempts_ensures Q body [] s a s' e = body s a s' e
  attempts_ensures Q body (d ∷ delays) s a s' e = elim (Result-cases (fn s).0) [
    | inl (b, h) ↦
        let same = sym (run_ok retryable sleep fn d delays s h) ∙ e in body s a s' (ground arith)
    | inr (inr h) ↦
        let same = sym (run_diverged retryable sleep fn d delays s h) ∙ e in absurd (ground arith)
    | inr (inl (x, h)) ↦ elim (Bool-cases (retryable x)) [
      | inr other ↦
          let same = sym (run_other retryable sleep fn d delays s h other) ∙ e in
          absurd (ground arith)
      | inl again ↦
          attempts_ensures Q body delays (sleep d (fn s).1) a s'
            (sym (run_again retryable sleep fn d delays s h again) ∙ e)
    ]
  ]

module _ {S A : Type 0} (sleep : ℕ → S → S) (fn : Exec Exn S A) where
  pub retry_resuming_ensures :
      (Q : A → S → Type 0)
      → ((s : S) (a : A) (s' : S) → fn s ≡ (ok a, s') → Q a s')
      → (s : S) (a : A) (s' : S) → retry_resuming sleep fn s ≡ (ok a, s')
      → Q a s'
  retry_resuming_ensures Q body s a s' e =
      attempts_ensures is_resuming sleep fn Q body resuming_delays s a s'
        (sym (retry_resuming_lem sleep fn s) ∙ e)
