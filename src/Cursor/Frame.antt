-- ===== src/Cursor/Frame.antt =====
-- What the methods of `AuroraDataAPICursor` in __init__.py leave alone: the connection, the array size,
-- and a description that is there; and the bounds of the index and of the page size, which they keep.
use aurora_data_api.Base.{
  length, ◌≤◌, ◌+◌, ◌/◌, max, ltb, ◌&&◌, is_nonempty, ℕ, zero, suc, ◌≡◌, refl, ap, ◌∙◌, true,
  Bool-cases, inl, inr, Option, none, some, List, [], ◌∷◌, arith,
}
use aurora_data_api.Base.Text.{Text}
use aurora_data_api.Base.Int.{ℤ}
use aurora_data_api.Base.Exec.{Result, Exec, ok, raised, diverged, modify}
use aurora_data_api.Base.Keeps.{Keeps, Preorder, bind-Keeps, if-Keeps, raise-Keeps, lift-Keeps}
use aurora_data_api.Value.{Stdlib}
use aurora_data_api.Convert.Columns.{Column}
use aurora_data_api.Errors.Classes.{Exn}
use aurora_data_api.Platform.{Response, Platform}
use aurora_data_api.Env.{Row, PagingState, Cursor, Env, call}
use aurora_data_api.Connection.{raise_translated}
use aurora_data_api.Cursor.{
  is_described, with_cursor, describe_page, store_page, fetch_failed, fetch_in, fetch_loop,
  fetch_next_page, pop_buffered_row, after_fetch, scroll, scroll_in, set_description,
  has_buffered_row, with_page_size, fetch_page, page_size, Rendered, render_response, set_buffer,
  items,
}

-- A page size is not zero.
abbrev pub AtLeastOne : Option PagingState → Type 0
AtLeastOne none = Unit {0}
AtLeastOne (some paging) = 1 ≤ paging.records_per_page

-- The index is inside the buffer or at its end, and neither the array size nor the page size is zero.
abbrev pub IsWithin : Cursor → Type 0
IsWithin c =
    (c.buffer_idx ≤ length (items c.buffer)) × (1 ≤ c.arraysize) × AtLeastOne c.paging_state

-- What no method of a cursor writes, but to describe a cursor that has no columns yet.
pub record SameCursor (c c' : Cursor) : Type 0 where
  pub arraysize : c'.arraysize ≡ c.arraysize
  pub description : is_described c.description ≡ true → c'.description ≡ c.description
  pub within : IsWithin c → IsWithin c'

pub record Frame {P : Platform} (env env' : Env P) : Type 0 where
  pub connection : env'.connection ≡ env.connection
  pub cursor : SameCursor env.cursor env'.cursor

same_cursor : (c : Cursor) → SameCursor c c
same_cursor c = record { arraysize = refl; description = λ h. refl; within = λ h. h }

module _ {P : Platform} where
  pub Frame-Preorder : Preorder {S = Env P} Frame
  Frame-Preorder = record {
    same = λ env. record { connection = refl; cursor = same_cursor env.cursor };
    after = λ s t u h k. record {
      connection = k.connection ∙ h.connection;
      cursor = record {
        arraysize = k.cursor.arraysize ∙ h.cursor.arraysize;
        description = λ d.
            k.cursor.description (ap is_described (h.cursor.description d) ∙ d)
            ∙ h.cursor.description d;
        within = λ w. k.cursor.within (h.cursor.within w);
      };
    };
  }

describe_page-SameCursor :
    (columns : Option (List Column)) (c : Cursor) → SameCursor c (describe_page columns c)
unfolding set_description
describe_page-SameCursor none c = same_cursor c
describe_page-SameCursor (some []) c = same_cursor c
describe_page-SameCursor (some (column ∷ columns)) c =
    elim (Bool-cases (is_described c.description)) [
      | inl there ↦ rw there (same_cursor c)
      | inr not_there ↦
          rw not_there
            (record { arraysize = refl; description = λ h. absurd (ground arith); within = λ h. h })
    ]

with_page_size-SameCursor :
    (n : ℕ) (paging : Option PagingState) (c : Cursor)
    → 1 ≤ n
    → SameCursor c (with_page_size n paging c)
with_page_size-SameCursor n none c least = same_cursor c
with_page_size-SameCursor n (some paging) c least = record {
  arraysize = refl;
  description = λ h. refl;
  within = λ (index, size, page). (index, size, least);
}

has_index :
    (rows : List Row) (i : ℕ) → is_nonempty rows && ltb i (length rows) ≡ true → i + 1 ≤ length rows
has_index [] i h = absurd (ground arith)
has_index (row ∷ rows) i h = ground arith

set_buffer-SameCursor : (rows : Option (List Row)) (c : Cursor) → SameCursor c (set_buffer rows c)
set_buffer-SameCursor rows c = record {
  arraysize = refl;
  description = λ h. refl;
  within = λ (index, size, page). (omega arith, size, page);
}

module _ {P : Platform} where
  pub raise_translated-Frame :
      {A : Type 0} (e : Exn) → Keeps Frame (raise_translated {P = P} {A = A} e)
  unfolding raise_translated
  raise_translated-Frame e = record {
    keeps = λ env. record { connection = refl; cursor = same_cursor env.cursor };
  }

  pub call-Frame : {A : Type 0} (m : Exec Exn P.State A) → Keeps Frame (call {P = P} m)
  call-Frame m = record {
    keeps = λ env. record { connection = refl; cursor = same_cursor env.cursor };
  }

  pub modify-Frame :
      (f : Cursor → Cursor)
      → ((c : Cursor) → SameCursor c (f c))
      → Keeps {E = Exn} Frame (modify (with_cursor {P = P} f))
  modify-Frame f h = record { keeps = λ env. record { connection = refl; cursor = h env.cursor } }

  pub pop_buffered_row-Frame : Keeps Frame (pop_buffered_row {P = P})
  unfolding pop_buffered_row has_buffered_row
  pop_buffered_row-Frame = record {
    keeps = λ env. elim (Bool-cases (has_buffered_row env.cursor)) [
      | inl has ↦ rw has (record {
        connection = refl;
        cursor = record {
          arraysize = refl;
          description = λ h. refl;
          within = λ (index, size, page).
              (has_index (items env.cursor.buffer) env.cursor.buffer_idx has, size, page);
        };
      })
      | inr hasnt ↦ rw hasnt (Frame-Preorder.same env)
    ];
  }

  scroll_in-Frame :
      (mode : Text) (value : ℤ) (paging : Option PagingState)
      → Keeps Frame (scroll_in {P = P} mode value paging)
  unfolding scroll_in
  scroll_in-Frame mode value none = raise-Keeps Frame-Preorder _
  scroll_in-Frame mode value (some paging) =
      bind-Keeps Frame-Preorder (call-Frame _) (λ _. modify-Frame _ (set_buffer-SameCursor _))

  pub scroll-Frame : (value : ℤ) (mode : Text) → Keeps Frame (scroll {P = P} value mode)
  unfolding scroll
  scroll-Frame value mode = record {
    keeps = λ env. (scroll_in-Frame mode value env.cursor.paging_state).keeps env;
  }

  module _ (L : Stdlib) where
    stored_rows :
        (rendered : Rendered)
        → Keeps {E = Exn} Frame
            (modify (with_cursor {P = P} (set_buffer (some (items rendered.records)))))
    stored_rows rendered = modify-Frame _ (set_buffer-SameCursor _)

    store_page-Frame : (page : Response) → Keeps Frame (store_page {P = P} L page)
    unfolding store_page
    store_page-Frame page = record {
      keeps = λ env.
          let described = with_cursor (describe_page page.column_metadata) env in
          let rendered = render_response L described.cursor.description page in
          Frame-Preorder.after env described _
            (record {
              connection = refl;
              cursor = describe_page-SameCursor page.column_metadata env.cursor;
            })
            ((bind-Keeps Frame-Preorder (lift-Keeps Frame-Preorder rendered) stored_rows).keeps
              described);
    }

    fetch_failed-Frame :
        {again : Exec Exn (Env P) (Unit {0})} (rpp : ℕ) (e : Exn)
        → Keeps Frame again
        → Keeps Frame (fetch_failed L again rpp e)
    unfolding fetch_failed
    fetch_failed-Frame rpp e h =
        if-Keeps _
          (if-Keeps _
            (bind-Keeps Frame-Preorder
              (bind-Keeps Frame-Preorder (scroll-Frame _ _) (λ _.
                modify-Frame _ (λ c.
                  with_page_size-SameCursor (max 1 (rpp / 2)) c.paging_state c (omega arith))))
              (λ _. h))
            (raise-Keeps Frame-Preorder e))
          (if-Keeps _ (raise_translated-Frame e) (raise-Keeps Frame-Preorder e))

    after_fetch-Frame :
        {again : Exec Exn (Env P) (Unit {0})} (rpp : ℕ) (r : Result Exn Response)
        → Keeps Frame again
        → Keeps Frame (after_fetch L again rpp r)
    unfolding after_fetch
    after_fetch-Frame rpp (ok page) h = record { keeps = λ env. (store_page-Frame page).keeps env }
    after_fetch-Frame rpp (raised e) h = record {
      keeps = λ env. (fetch_failed-Frame rpp e h).keeps env;
    }
    after_fetch-Frame rpp diverged h = record { keeps = Frame-Preorder.same }

    fetch_page-Frame : (paging : PagingState) → Keeps Frame (fetch_page {P = P} L paging)
    fetch_page-Frame paging = record {
      keeps = λ env. record { connection = refl; cursor = same_cursor env.cursor };
    }

    fetch_in-Frame :
        {again : Exec Exn (Env P) (Unit {0})} (paging : Option PagingState)
        → Keeps Frame again
        → Keeps Frame (fetch_in L again paging)
    unfolding fetch_in
    fetch_in-Frame none h = record { keeps = Frame-Preorder.same }
    fetch_in-Frame (some paging) h = record {
      keeps = λ env.
          Frame-Preorder.after env (fetch_page L paging env).1 _
            ((fetch_page-Frame paging).keeps env)
            ((after_fetch-Frame paging.records_per_page (fetch_page L paging env).0 h).keeps
              (fetch_page L paging env).1);
    }

    fetch_loop-Frame : (fuel : ℕ) → Keeps Frame (fetch_loop {P = P} L fuel)
    unfolding fetch_loop
    fetch_loop-Frame zero = record { keeps = Frame-Preorder.same }
    fetch_loop-Frame (suc fuel) = record {
      keeps = λ env. (fetch_in-Frame env.cursor.paging_state (fetch_loop-Frame fuel)).keeps env;
    }

    pub fetch_next_page-Frame : Keeps Frame (fetch_next_page {P = P} L)
    unfolding fetch_next_page
    fetch_next_page-Frame = record {
      keeps = λ env. (fetch_loop-Frame (suc (page_size env.cursor.paging_state))).keeps env;
    }
