-- ===== src/Errors/Pattern/Postgresql.antt =====
-- `ERROR: .*(?:\n |;) Position: (\d+); SQLState: (\w+)$` against the messages that it is written for.
use mathlib.Core.List.{append-nil, append_assoc}
use aurora_data_api.Base.{
  ◌≡◌, refl, sym, ap, ◌∙◌, ◌≢◌, ◌⊎◌, inl, inr, none, some, true, [], ◌∷◌, ◌++◌, arith, Option-cases,
  all,
}
use aurora_data_api.Base.Text.{Text, codes}
use aurora_data_api.Base.Decimal.{is_digit, is_word}
use aurora_data_api.Errors.Pattern.{
  match_lit, match_some, match_many, finish, not_newline, error_label, position_label, state_label,
  postgresql_after_position, postgresql_after_separator, postgresql_after_text, postgresql_match,
  postgresql_search,
}
use aurora_data_api.Errors.Pattern.Laws.{
  IsRun, match_lit_complete, match_lit_sound, match_some_sound, match_some_complete,
  match_many_sound, match_many_complete, search_text_sound, search_text_complete,
}
use aurora_data_api.Errors.Pattern.Runs.{
  last_state_unique, no_newline_tail, finish_step, finish_complete,
}

-- `(?:\n |;)`
pub data Separator : Type 0 where
  newline_blank semicolon : Separator

abbrev pub separator_text : Separator → Text
separator_text newline_blank = codes "\n "
separator_text semicolon = codes ";"

-- A message that ends like the errors of PostgreSQL which have a position.
abbrev pub postgresql_message : Text → Text → Separator → Text → Text → Text
postgresql_message before text sep position state =
    before
    ++ (error_label
        ++ (text
            ++ (separator_text sep ++ (position_label ++ (position ++ (state_label ++ state))))))

after_separator_complete :
    (position state : Text)
    → IsRun is_digit position
    → IsRun is_word state
    → postgresql_after_separator (position_label ++ (position ++ (state_label ++ state))) ≢ none
unfolding postgresql_after_separator
after_separator_complete position state rp rs = rw match_lit_complete (
    match_some_complete is_digit postgresql_after_position position (state_label ++ state) rp (
      unfold postgresql_after_position in
      rw match_lit_complete (finish_complete is_word position state rs)))

after_text_complete :
    (text : Text) (sep : Separator) (rest : Text)
    → postgresql_after_separator rest ≢ none
    → postgresql_after_text text (separator_text sep ++ rest) ≢ none
unfolding postgresql_after_text match_lit
after_text_complete text newline_blank rest found = ground arith
after_text_complete text semicolon rest found = found

pub postgresql_search_complete :
    (before text : Text) (sep : Separator) (position state : Text)
    → all not_newline text ≡ true
    → IsRun is_digit position
    → IsRun is_word state
    → postgresql_search (postgresql_message before text sep position state) ≢ none
unfolding postgresql_search
postgresql_search_complete before text sep position state rt rp rs =
    search_text_complete postgresql_match before _ (
      unfold postgresql_match in
      rw match_lit_complete (
        match_many_complete not_newline postgresql_after_text text _ rt
          (after_text_complete text sep _ (after_separator_complete position state rp rs))))

position_step :
    (position s : Text) {r : Text × Text}
    → postgresql_after_position position s ≡ some r
    → (rest : Text) × (s ≡ state_label ++ rest)
      × (match_some is_word (finish position) rest ≡ some r)
unfolding postgresql_after_position
position_step position s h = match_lit_sound state_label _ s h

separator_step :
    (s : Text) {r : Text × Text}
    → postgresql_after_separator s ≡ some r
    → (rest : Text) × (s ≡ position_label ++ rest)
      × (match_some is_digit postgresql_after_position rest ≡ some r)
unfolding postgresql_after_separator
separator_step s h = match_lit_sound position_label _ s h

text_step :
    (text s : Text) {r : Text × Text}
    → postgresql_after_text text s ≡ some r
    → (sep : Separator) × (rest : Text) × (s ≡ separator_text sep ++ rest)
      × (postgresql_after_separator rest ≡ some r)
unfolding postgresql_after_text
text_step text s h = elim (Option-cases (match_lit (codes "\n ") postgresql_after_separator s)) [
  | inl other ↦
      let (rest, e, found) =
        match_lit_sound (codes ";") postgresql_after_separator s (ground arith) in
      (semicolon, rest, e, found)
  | inr (b, first) ↦
      let (rest, e, found) = match_lit_sound (codes "\n ") postgresql_after_separator s first in
      (newline_blank, rest, e, ground arith)
]

match_step :
    (s : Text) {r : Text × Text}
    → postgresql_match s ≡ some r
    → (rest : Text) × (s ≡ error_label ++ rest)
      × (match_many not_newline postgresql_after_text rest ≡ some r)
unfolding postgresql_match
match_step s h = match_lit_sound error_label _ s h

-- A message up to its last label.
unfoldable pub postgresql_front : Text → Text → Separator → Text → Text
postgresql_front before text sep position =
    before ++ (error_label ++ (text ++ (separator_text sep ++ (position_label ++ position))))

pub flat_message :
    (before text : Text) (sep : Separator) (position state : Text)
    → postgresql_message before text sep position state
      ≡ postgresql_front before text sep position ++ (state_label ++ state)
unfolding postgresql_front
flat_message before text sep position state = simp append_assoc

same_fields :
    (front : Text → Text) {p p' st st' : Text} (rest : Text)
    → p ≡ p'
    → st ≡ st'
    → front p ++ (state_label ++ (st ++ rest)) ≡ front p' ++ (state_label ++ (st' ++ rest))
same_fields front rest ep es = cc

-- What the search finds as the SQL state stands at the end of the text, up to one newline.
pub postgresql_search_sound :
    (s position state : Text)
    → postgresql_search s ≡ some (position, state)
    → (before : Text) × (text : Text) × (sep : Separator) × (tail : Text) × (s
        ≡ postgresql_front before text sep position ++ (state_label ++ (state ++ tail)))
      × ((tail ≡ []) ⊎ (tail ≡ b'\n' ∷ []))
      × IsRun is_digit position
      × IsRun is_word state
unfolding postgresql_search
postgresql_search_sound s position state h =
    let (before, s1, e1, h1) = search_text_sound postgresql_match s h in
    let (s2, e2, h2) = match_step s1 h1 in
    let (text, s3, e3, rt, h3) = match_many_sound not_newline postgresql_after_text s2 h2 in
    let (sep, s4, e4, h4) = text_step text s3 h3 in
    let (s5, e5, h5) = separator_step s4 h4 in
    let (p, s6, e6, rp, h6) = match_some_sound is_digit postgresql_after_position s5 h5 in
    let (s7, e7, h7) = position_step p s6 h6 in
    let (st, s8, e8, rs, h8) = match_some_sound is_word (finish p) s7 h7 in
    let (er, tail) = finish_step p st s8 h8 in
    let es : st ≡ state = ap (λ (r : Text × Text). r.1) er in
    let shape : s ≡ postgresql_message before text sep p (st ++ s8) = cc in
    let ep : p ≡ position = ap (λ (r : Text × Text). r.0) er in
    (
      before,
      text,
      sep,
      s8,
      shape
          ∙ flat_message before text sep p (st ++ s8)
          ∙ same_fields (postgresql_front before text sep) s8 ep es,
      tail,
      rw (← ep) rp,
      rw (← es) rs,
    )

-- The SQL state at the end of a text is what a search can find.
pub state_unique :
    (u u' state state' tail : Text)
    → u ++ (state_label ++ state) ≡ u' ++ (state_label ++ (state' ++ tail))
    → (tail ≡ []) ⊎ (tail ≡ b'\n' ∷ [])
    → IsRun is_word state
    → IsRun is_word state'
    → (u ≡ u') × (state ≡ state')
unfolding is_word
state_unique u u' state state' tail e (inl h) rs rs' =
    last_state_unique is_word u u' state state' (rw (h, append-nil) at e) refl rs.0 rs'.0
state_unique u u' state state' tail e (inr h) rs rs' = absurd (
    no_newline_tail is_word u (u' ++ state_label) state state' refl refl rs
      (rw h at (e ∙ sym (append_assoc u' state_label (state' ++ tail)))))

-- In a message that ends as PostgreSQL ends its errors with a position, with no newline between
-- ERROR and the separator, the search finds the SQL state at the end, whatever stands before.
pub postgresql_search_lem :
    (before text : Text) (sep : Separator) (position state : Text)
    → all not_newline text ≡ true
    → IsRun is_digit position
    → IsRun is_word state
    → (found : Text) × (postgresql_search (postgresql_message before text sep position state)
        ≡ some (found, state))
postgresql_search_lem before text sep position state rt rp rs =
    elim (Option-cases (postgresql_search (postgresql_message before text sep position state))) [
      | inl missed ↦
          absurd (postgresql_search_complete before text sep position state rt rp rs missed)
      | inr (found, e) ↦ (found.0, e ∙ ap some (same found e))
    ]
  where
    same :
        (found : Text × Text)
        → postgresql_search (postgresql_message before text sep position state) ≡ some found
        → found ≡ (found.0, state)
    same (position', state') e =
        let (before', text', sep', tail, shape, end, _, rs') =
          postgresql_search_sound _ position' state' e in
        let (_, es) =
          state_unique (postgresql_front before text sep position)
            (postgresql_front before' text' sep' position') state state' tail
            (sym (flat_message before text sep position state) ∙ shape) end rs rs' in
        cc
