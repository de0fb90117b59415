-- ===== src/Cursor/Batch/Laws.antt =====
-- The batches that `_page_input` of __init__.py makes.
use aurora_data_api.Base.{
  ℕ, zero, suc, ◌≤◌, ◌<◌, ◌≡◌, refl, ap, ◌∙◌, List, [], ◌∷◌, ◌++◌, arith, length, take, drop,
  length-take, length-drop, take-append-drop, Option,
}
use aurora_data_api.Cursor.Batch.{batches, page_input, or_arraysize}

abbrev pub joined : {A : Type 0} → List (List A) → List A
joined [] = []
joined (xs ∷ xss) = xs ++ joined xss

-- Every list but the last has exactly `n` items; the last has at least one and at most `n`.
abbrev pub AreFull : {A : Type 0} → ℕ → List (List A) → Type 0
AreFull n [] = Unit
AreFull n (xs ∷ []) = (0 < length xs) × (length xs ≤ n)
AreFull n (xs ∷ (ys ∷ rest)) = (length xs ≡ n) × AreFull n (ys ∷ rest)

module _ {A : Type 0} (n : ℕ) where
  left : (items : List A) (fuel : ℕ) → suc (length items) ≤ suc fuel → length (drop n items) ≤ fuel
  left items fuel h = omega (arith, length-drop n items, h)

  full_cons :
      (fuel : ℕ) (xs rest : List A)
      → 0 < length xs
      → length xs ≤ suc n
      → (0 < length rest → length xs ≡ suc n)
      → AreFull (suc n) (batches fuel (suc n) rest)
      → AreFull (suc n) (xs ∷ batches fuel (suc n) rest)
  unfolding batches
  full_cons zero xs rest some_item bound full h = (some_item, bound)
  full_cons (suc fuel) xs [] some_item bound full h = (some_item, bound)
  full_cons (suc fuel) xs (y ∷ rest) some_item bound full h = (full (omega arith), h)

  batches-joined :
      (fuel : ℕ) (items : List A)
      → length items ≤ fuel
      → joined (batches fuel (suc n) items) ≡ items
  unfolding batches
  batches-joined zero [] h = refl
  batches-joined zero (x ∷ items) h = absurd (omega (arith, h))
  batches-joined (suc fuel) [] h = refl
  batches-joined (suc fuel) (x ∷ items) h = ap (◌∷◌ x) (
      ap (◌++◌ (take n items)) (batches-joined fuel (drop n items) (left items fuel h))
      ∙ take-append-drop n items)

  batches-full :
      (fuel : ℕ) (items : List A)
      → length items ≤ fuel
      → AreFull (suc n) (batches fuel (suc n) items)
  unfolding batches
  batches-full zero items h = tt
  batches-full (suc fuel) [] h = tt
  batches-full (suc fuel) (x ∷ items) h =
      full_cons fuel (x ∷ take n items) (drop n items) (omega arith)
        (omega (arith, length-take n items))
        (λ more. omega (arith, length-take n items, length-drop n items, more))
        (batches-full fuel (drop n items) (left items fuel h))

sized_batches :
    {A : Type 0} (items : List A) (size : ℕ)
    → 0 < size
    → (joined (batches (length items) size items) ≡ items)
      × AreFull size (batches (length items) size items)
sized_batches items zero h = absurd (omega (arith, h))
sized_batches items (suc n) h = (
  batches-joined n (length items) items (omega arith),
  batches-full n (length items) items (omega arith),
)

-- For a page size (the array size, if none or zero is given) that is not zero, the batches of
-- executemany hold the items of the sequence in order, each once; every batch but the last has
-- exactly the page size, and the last is neither empty nor longer.
pub page_input-joined :
    {A : Type 0} (items : List A) (page_size : Option ℕ) (arraysize : ℕ)
    → 0 < or_arraysize page_size arraysize
    → (joined (page_input items page_size arraysize) ≡ items)
      × AreFull (or_arraysize page_size arraysize) (page_input items page_size arraysize)
unfolding page_input
page_input-joined items page_size arraysize h =
    sized_batches items (or_arraysize page_size arraysize) h
