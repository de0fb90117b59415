-- ===== src/Errors/Pattern/Laws.antt =====
-- What the matchers find: they are sound and complete for the languages that the patterns denote.
use aurora_data_api.Base.{
  ℕ, ◌≡◌, refl, ap, ◌≢◌, ◌⊎◌, inl, inr, Bool, true, Option, none, some, [], ◌∷◌, ◌++◌, arith, ◌==◌,
  Bool-cases, Option-cases, all, is_nonempty,
}
use aurora_data_api.Base.Text.{Text}
use aurora_data_api.Errors.Pattern.{match_lit, match_many, match_some, match_end, search_text}

abbrev pub IsRun : (ℕ → Bool) → Text → Type 0
IsRun cls g = (all cls g ≡ true) × (is_nonempty g ≡ true)

module _ {A : Type 0} where
  pub match_lit_complete :
      (p : Text) (k : Text → Option A) (s : Text) → match_lit p k (p ++ s) ≡ k s
  unfolding match_lit
  match_lit_complete [] k s = refl
  match_lit_complete (c ∷ p) k s = ground (arith, match_lit_complete p k s)

  pub match_lit_sound :
      (p : Text) (k : Text → Option A) (s : Text) {r : A}
      → match_lit p k s ≡ some r
      → (rest : Text) × (s ≡ p ++ rest) × (k rest ≡ some r)
  unfolding match_lit
  match_lit_sound [] k s h = (s, refl, h)
  match_lit_sound (c ∷ p) k [] h = cc
  match_lit_sound (c ∷ p) k (d ∷ s) h = elim (Bool-cases (c == d)) [
    | inl same ↦
        let (rest, e, found) = match_lit_sound p k s (ground arith) in (rest, ground arith, found)
    | inr differ ↦ absurd (ground arith)
  ]

  pub match_many_sound :
      (cls : ℕ → Bool) (k : Text → Text → Option A) (s : Text) {r : A}
      → match_many cls k s ≡ some r
      → (g : Text) × (rest : Text) × (s ≡ g ++ rest) × (all cls g ≡ true) × (k g rest ≡ some r)
  unfolding match_many
  match_many_sound cls k [] h = ([], [], refl, refl, h)
  match_many_sound cls k (c ∷ s) h = elim (Bool-cases (cls c)) [
    | inr out ↦ ([], c ∷ s, refl, refl, ground arith)
    | inl in_class ↦ elim (Option-cases (match_many cls (λ g rest. k (c ∷ g) rest) s)) [
      | inl shorter ↦ ([], c ∷ s, refl, refl, ground arith)
      | inr (b, longer) ↦
          let (g, rest, e, run, found) = match_many_sound cls (λ g rest. k (c ∷ g) rest) s longer in
          (c ∷ g, rest, ap (◌∷◌ c) e, ground arith, ground arith)
    ]
  ]

  pub match_many_complete :
      (cls : ℕ → Bool) (k : Text → Text → Option A) (g rest : Text)
      → all cls g ≡ true
      → k g rest ≢ none
      → match_many cls k (g ++ rest) ≢ none
  unfolding match_many
  match_many_complete cls k [] [] run found = found
  match_many_complete cls k [] (c ∷ rest) run found = ground arith
  match_many_complete cls k (c ∷ g) rest run found =
      ground (arith, match_many_complete cls (λ g rest. k (c ∷ g) rest) g rest)

  pub match_some_sound :
      (cls : ℕ → Bool) (k : Text → Text → Option A) (s : Text) {r : A}
      → match_some cls k s ≡ some r
      → (g : Text) × (rest : Text) × (s ≡ g ++ rest) × IsRun cls g × (k g rest ≡ some r)
  unfolding match_some
  match_some_sound cls k [] h = cc
  match_some_sound cls k (c ∷ s) h = elim (Bool-cases (cls c)) [
    | inr out ↦ absurd (ground arith)
    | inl in_class ↦
        let (g, rest, e, run, found) =
          match_many_sound cls (λ g rest. k (c ∷ g) rest) s (ground arith) in
        (c ∷ g, rest, ap (◌∷◌ c) e, (ground arith, refl), found)
  ]

  pub match_some_complete :
      (cls : ℕ → Bool) (k : Text → Text → Option A) (g rest : Text)
      → IsRun cls g
      → k g rest ≢ none
      → match_some cls k (g ++ rest) ≢ none
  unfolding match_some
  match_some_complete cls k [] rest run found = cc
  match_some_complete cls k (c ∷ g) rest run found =
      ground (arith, match_many_complete cls (λ g rest. k (c ∷ g) rest) g rest)

  pub match_end_sound :
      (a : A) (s : Text) {r : A} → match_end a s ≡ some r → (a ≡ r) × ((s ≡ []) ⊎ (s ≡ b'\n' ∷ []))
  unfolding match_end
  match_end_sound a [] h = (ground arith, inl refl)
  match_end_sound a (c ∷ []) h = ground arith
  match_end_sound a (c ∷ d ∷ s) h = cc

  pub search_text_sound :
      (m : Text → Option A) (s : Text) {r : A}
      → search_text m s ≡ some r
      → (before : Text) × (rest : Text) × (s ≡ before ++ rest) × (m rest ≡ some r)
  unfolding search_text
  search_text_sound m [] h = ([], [], refl, h)
  search_text_sound m (c ∷ s) h = elim (Option-cases (m (c ∷ s))) [
    | inr (b, here) ↦ ([], c ∷ s, refl, ground arith)
    | inl later ↦
        let (before, rest, e, found) = search_text_sound m s (ground arith) in
        (c ∷ before, rest, ap (◌∷◌ c) e, found)
  ]

  pub search_text_complete :
      (m : Text → Option A) (before rest : Text)
      → m rest ≢ none
      → search_text m (before ++ rest) ≢ none
  unfolding search_text
  search_text_complete m [] [] found = found
  search_text_complete m [] (c ∷ rest) found = ground arith
  search_text_complete m (c ∷ before) rest found =
      ground (arith, search_text_complete m before rest)
