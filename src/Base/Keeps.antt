-- ===== src/Base/Keeps.antt =====
-- What a method keeps: a relation between the state before it and the state after it, however it ends.
use mathlib.Core.Bool.{Bool, true, false}
use aurora_data_api.Base.Tests.{if◌then◌else◌}
use aurora_data_api.Base.Exec.{
  Result, Exec, ok, raised, diverged, raise, lift, try_except, continue, handle, ◌>>=◌,
}

pub record Keeps {E S A : Type 0} (R : S → S → Type 0) (m : Exec E S A) : Type 0 where
  pub keeps : (s : S) → R s (m s).1

-- A relation that composes.
pub record Preorder {S : Type 0} (R : S → S → Type 0) : Type 0 where
  pub same : (s : S) → R s s
  pub after : (s t u : S) → R s t → R t u → R s u

module _ {E S : Type 0} {R : S → S → Type 0} (order : Preorder R) where
  continue-keeps :
      {A B : Type 0} (r : Result E A) (f : A → Exec E S B)
      → ((a : A) → Keeps R (f a))
      → (s : S) → R s (continue r f s).1
  continue-keeps (ok a) f h s = (h a).keeps s
  continue-keeps (raised e) f h s = order.same s
  continue-keeps diverged f h s = order.same s

  pub bind-Keeps :
      {A B : Type 0} {m : Exec E S A} {f : A → Exec E S B}
      → Keeps R m
      → ((a : A) → Keeps R (f a))
      → Keeps R (m >>= f)
  bind-Keeps {A} {B} {m} {f} h k = record {
    keeps =
        λ s. order.after s (m s).1 ((m >>= f) s).1 (h.keeps s) (continue-keeps (m s).0 f k (m s).1);
  }

  handle-keeps :
      {A : Type 0} (r : Result E A) (h : E → Exec E S A)
      → ((e : E) → Keeps R (h e))
      → (s : S) → R s (handle r h s).1
  handle-keeps (ok a) h k s = order.same s
  handle-keeps (raised e) h k s = (k e).keeps s
  handle-keeps diverged h k s = order.same s

  pub try_except-Keeps :
      {A : Type 0} {m : Exec E S A} {h : E → Exec E S A}
      → Keeps R m
      → ((e : E) → Keeps R (h e))
      → Keeps R (try_except m h)
  try_except-Keeps {A} {m} {h} k l = record {
    keeps = λ s.
        order.after s (m s).1 (try_except m h s).1 (k.keeps s) (handle-keeps (m s).0 h l (m s).1);
  }

  pub raise-Keeps : {A : Type 0} (e : E) → Keeps R (raise {A = A} e)
  raise-Keeps e = record { keeps = order.same }

  pub lift-Keeps : {A : Type 0} (r : Result E A) → Keeps R (lift r)
  lift-Keeps r = record { keeps = order.same }

module _ {E S A : Type 0} where
  pub if-Keeps :
      {R : S → S → Type 0} (b : Bool) {m k : Exec E S A}
      → Keeps R m
      → Keeps R k
      → Keeps R (if b then m else k)
  if-Keeps true h l = h
  if-Keeps false h l = l
