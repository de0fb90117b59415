-- ===== src/Source.antt =====
-- What the fetch methods of a cursor promise a client, for any sequence of calls: the rows of a result,
-- each once and in order. The cursors of the package are shown to keep this promise.
use aurora_data_api.Base.{
  ◌⊎◌, inl, inr, Option, none, some, ℕ, ◌≡◌, refl, ap, List, [], ◌∷◌, take, drop,
}
use aurora_data_api.Base.Exec.{Exec, ok, ◌>>=◌, raised}
use aurora_data_api.Errors.Classes.{Exn}
use aurora_data_api.Env.{Row}

-- `fetchone`, `fetchmany` with a size, and `fetchall`.
pub data Fetch : Type 0 where
  one all : Fetch
  many : ℕ → Fetch

abbrev pub taken : Fetch → List Row → List Row
taken one rows = take 1 rows
taken (many size) rows = take size rows
taken all rows = rows

abbrev pub left : Fetch → List Row → List Row
left one rows = drop 1 rows
left (many size) rows = drop size rows
left all rows = []

-- The answers to a sequence of calls, by the rows alone.
pub replay : List Fetch → List Row → List (List Row)
replay [] rows = []
replay (f ∷ calls) rows = taken f rows ∷ replay calls (left f rows)

-- `fetchone` hands out at most one row.
abbrev pub row_list : Option Row → List Row
row_list none = []
row_list (some row) = row ∷ []

abbrev pub head : List Row → Option Row
head [] = none
head (row ∷ rows) = some row

pub head_list : (rows : List Row) → row_list (head rows) ≡ take 1 rows
head_list [] = refl
head_list (row ∷ rows) = refl

module _ {S : Type 0} (fetch : Fetch → Exec Exn S (List Row)) where
  -- The same calls on a cursor.
  pub run : List Fetch → Exec Exn S (List (List Row))
  run [] s = (ok [], s)
  run (f ∷ calls) s =
      (fetch f >>= λ rows. (λ s'. run calls s') >>= λ answers. λ s''. (ok (rows ∷ answers), s'')) s

  -- A cursor with an abstract value: the rows that are left. A call hands out the rows that it takes,
  -- or it raises, if that may happen: `F` says why.
  pub record RowSource (F : Type 0) : Type 1 where
    pub rows : S → List Row
    pub Ready : S → Type 0
    pub step :
        (f : Fetch) (s : S)
        → Ready s
        → ((s' : S) × (fetch f s ≡ (ok (taken f (rows s)), s'))
            × (rows s' ≡ left f (rows s))
            × Ready s')
          ⊎ (F × (e : Exn) × (s' : S) × (fetch f s ≡ (raised e, s')))

  module _ {F : Type 0} (source : RowSource F) where
    open source use {rows, Ready, step}

    -- The answers that the rows say, or an exception.
    abbrev pub Refines : List Fetch → S → Type 0
    Refines calls s =
        ((s' : S) × (run calls s ≡ (ok (replay calls (rows s)), s')) × Ready s')
        ⊎ (F × (e : Exn) × (s' : S) × (run calls s ≡ (raised e, s')))

    pub run-Refines : (calls : List Fetch) (s : S) → Ready s → Refines calls s
    unfolding run replay
    run-Refines [] s h = inl (s, refl, h)
    run-Refines (f ∷ calls) s h = elim (step f s h) [
      | inr (why, e, s', raises) ↦ inr (why, e, s', rw raises refl)
      | inl (s', hands, rest, h') ↦ elim (run-Refines calls s' h') [
        | inr (why, e, s'', raises) ↦ inr (why, e, s'', rw (hands, raises) refl)
        | inl (s'', same, h'') ↦ inl (
          s'',
          rw (hands, same) (ap (λ l. (ok (taken f (rows s) ∷ replay calls l), s'')) rest),
          h'',
        )
      ]
    ]
