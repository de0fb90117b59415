-- ===== src/Base/Exec.antt =====
-- Methods that mutate objects and may raise. What was written before a raise stays written, so the
-- state comes back beside the exception too. `diverged` is a loop whose fuel ran out.

use mathlib.Core.Path.{◌≡◌, refl}
use mathlib.Core.Logic.{◌⊎◌, inl, inr}

pub data Result {ℓ} (E A : Type ℓ) : Type ℓ where
  ok : A → Result E A
  raised : E → Result E A
  diverged : Result E A

abbrev pub Exec : Type 0 → Type 0 → Type 0 → Type 0
Exec E S A = S → Result E A × S

module _ {E S A : Type 0} where
  abbrev pub pure : A → Exec E S A
  pure a s = (ok a, s)

  abbrev pub raise : E → Exec E S A
  raise e s = (raised e, s)

  abbrev pub gets : (S → A) → Exec E S A
  gets f s = (ok (f s), s)

  abbrev pub lift : Result E A → Exec E S A
  lift r s = (r, s)

abbrev pub modify : {E S : Type 0} → (S → S) → Exec E S (Unit {0})
modify f s = (ok tt, f s)

module _ {E S A B : Type 0} where
  abbrev pub continue : Result E A → (A → Exec E S B) → Exec E S B
  continue (ok a) f s = f a s
  continue (raised e) f s = (raised e, s)
  continue diverged f s = (diverged, s)

  infixl 5 ◌>>=◌ ◌>>◌
  abbrev pub ◌>>=◌ : Exec E S A → (A → Exec E S B) → Exec E S B
  ◌>>=◌ m f s = let (r, s') = m s in continue r f s'

  abbrev pub ◌>>◌ : Exec E S A → Exec E S B → Exec E S B
  m >> k = m >>= λ _. k

module _ {E S A : Type 0} where
  abbrev pub handle : Result E A → (E → Exec E S A) → Exec E S A
  handle (ok a) h s = (ok a, s)
  handle (raised e) h s = h e s
  handle diverged h s = (diverged, s)

  -- `try: m` with the handler as a function of the exception, which may raise again.
  abbrev pub try_except : Exec E S A → (E → Exec E S A) → Exec E S A
  try_except m h s = let (r, s') = m s in handle r h s'

pub Result-cases {ℓ} :
    {E A : Type ℓ} (r : Result E A)
    → ((a : A) × (r ≡ ok a)) ⊎ ((e : E) × (r ≡ raised e)) ⊎ (r ≡ diverged)
Result-cases (ok a) = inl (a, refl)
Result-cases (raised e) = inr (inl (e, refl))
Result-cases diverged = inr (inr refl)

-- The fuel has not run out.
abbrev pub Ends : {E A : Type 0} → Result E A → Type 0
Ends diverged = ⊥
Ends _ = Unit

pub continue-Ends :
    {E S A B : Type 0} (r : Result E A) (f : A → Exec E S B) (s : S)
    → Ends r
    → ((a : A) → Ends (f a s).0)
    → Ends (continue r f s).0
continue-Ends (ok a) f s h k = k a
continue-Ends (raised e) f s h k = tt
continue-Ends diverged f s h k = h
