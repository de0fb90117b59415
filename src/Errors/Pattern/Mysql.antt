-- ===== src/Errors/Pattern/Mysql.antt =====
-- `Error code: (\d+); SQLState: (\d+)$` against the messages that it is written for.
use mathlib.Core.List.{append-nil, append_assoc}
use aurora_data_api.Base.{
  ◌≡◌, refl, sym, ap, ◌∙◌, ◌≢◌, ◌⊎◌, inl, inr, none, some, [], ◌∷◌, ◌++◌, Option-cases,
}
use aurora_data_api.Base.Text.{Text, codes}
use aurora_data_api.Base.Decimal.{is_digit}
use aurora_data_api.Errors.Pattern.{
  match_some, finish, code_label, state_label, mysql_after_code, mysql_match, mysql_search,
}
use aurora_data_api.Errors.Pattern.Laws.{
  IsRun, match_lit_complete, match_lit_sound, match_some_sound, match_some_complete,
  search_text_sound, search_text_complete,
}
use aurora_data_api.Errors.Pattern.Runs.{
  split_run, last_state_unique, no_newline_tail, finish_step, finish_complete,
}

-- A message that ends like the errors of MySQL.
abbrev pub mysql_message : Text → Text → Text → Text
mysql_message before code state = before ++ (code_label ++ (code ++ (state_label ++ state)))

pub regroup_code :
    (before code : Text)
    → before ++ (code_label ++ code) ≡ (before ++ codes "Error code:") ++ (b' ' ∷ code)
unfolding code_label
regroup_code before code = sym (append_assoc before (codes "Error code:") (b' ' ∷ code))

-- Where the code and the state stand is determined by the end of the message.
fields_unique :
    (before before' code code' state state' : Text)
    → mysql_message before code state ≡ mysql_message before' code' state'
    → IsRun is_digit code
    → IsRun is_digit state
    → IsRun is_digit code'
    → IsRun is_digit state'
    → (code ≡ code') × (state ≡ state')
unfolding is_digit
fields_unique before before' code code' state state' e rc rs rc' rs' =
    let (eu, es) =
      last_state_unique is_digit (before ++ (code_label ++ code)) (before' ++ (code_label ++ code'))
        state state' (flat before code state ∙ e ∙ sym (flat before' code' state')) refl rs.0
        rs'.0 in
    let regrouped = sym (regroup_code before code) ∙ eu ∙ regroup_code before' code' in
    ((split_run is_digit _ _ code code' regrouped refl refl rc.0 rc'.0).1, es)
  where
    flat : (b c t : Text) → (b ++ (code_label ++ c)) ++ (state_label ++ t) ≡ mysql_message b c t
    flat b c t = simp append_assoc

mysql_match_step :
    (s : Text) {r : Text × Text}
    → mysql_match s ≡ some r
    → (rest : Text) × (s ≡ code_label ++ rest)
      × (match_some is_digit mysql_after_code rest ≡ some r)
unfolding mysql_match
mysql_match_step s h = match_lit_sound code_label _ s h

after_code_step :
    (code s : Text) {r : Text × Text}
    → mysql_after_code code s ≡ some r
    → (rest : Text) × (s ≡ state_label ++ rest) × (match_some is_digit (finish code) rest ≡ some r)
unfolding mysql_after_code
after_code_step code s h = match_lit_sound state_label _ s h

-- What the search finds stands at the end of the message, up to one newline.
pub mysql_search_sound :
    (s code state : Text)
    → mysql_search s ≡ some (code, state)
    → (before : Text) × (tail : Text) × (s ≡ mysql_message before code (state ++ tail))
      × ((tail ≡ []) ⊎ (tail ≡ b'\n' ∷ []))
      × IsRun is_digit code
      × IsRun is_digit state
unfolding mysql_search
mysql_search_sound s code state h =
    let (before, s1, e1, h1) = search_text_sound mysql_match s h in
    let (s2, e2, h2) = mysql_match_step s1 h1 in
    let (c, s3, e3, rc, h3) = match_some_sound is_digit mysql_after_code s2 h2 in
    let (s4, e4, h4) = after_code_step c s3 h3 in
    let (st, s5, e5, rs, h5) = match_some_sound is_digit (finish c) s4 h4 in
    let (er, tail) = finish_step c st s5 h5 in
    let ec : c ≡ code = ap (λ (p : Text × Text). p.0) er in
    let es : st ≡ state = ap (λ (p : Text × Text). p.1) er in
    (before, s5, cc, tail, rw (← ec) rc, rw (← es) rs)

mysql_search_complete :
    (before code state : Text)
    → IsRun is_digit code
    → IsRun is_digit state
    → mysql_search (mysql_message before code state) ≢ none
unfolding mysql_search
mysql_search_complete before code state rc rs =
    search_text_complete mysql_match before (code_label ++ (code ++ (state_label ++ state))) (
      rw match_lit_complete (
        match_some_complete is_digit mysql_after_code code (state_label ++ state) rc
          (rw match_lit_complete (finish_complete is_digit code state rs))))

pub flat_message :
    (before code state : Text)
    → (before ++ (code_label ++ code)) ++ (state_label ++ state) ≡ mysql_message before code state
flat_message before code state = simp append_assoc

flat_newline :
    (before code state : Text)
    → mysql_message before code (state ++ (b'\n' ∷ []))
      ≡ (before ++ (code_label ++ (code ++ state_label))) ++ (state ++ (b'\n' ∷ []))
flat_newline before code state = simp append_assoc

found_fields :
    (before before' code code' state state' tail : Text)
    → mysql_message before code state ≡ mysql_message before' code' (state' ++ tail)
    → (tail ≡ []) ⊎ (tail ≡ b'\n' ∷ [])
    → IsRun is_digit code
    → IsRun is_digit state
    → IsRun is_digit code'
    → IsRun is_digit state'
    → (code ≡ code') × (state ≡ state')
unfolding is_digit
found_fields before before' code code' state state' tail e (inl h) rc rs rc' rs' =
    fields_unique before before' code code' state state' (rw (h, append-nil) at e) rc rs rc' rs'
found_fields before before' code code' state state' tail e (inr h) rc rs rc' rs' =
    let shape = rw h at e in
    absurd (
      no_newline_tail is_digit _ _ state state' refl refl rs
        (flat_message before code state ∙ shape ∙ flat_newline before' code' state'))

-- In a message that ends in a code and a SQL state as MySQL writes them, both runs of digits, the
-- search finds this code and this state, whatever stands before.
pub mysql_search_lem :
    (before code state : Text)
    → IsRun is_digit code
    → IsRun is_digit state
    → mysql_search (mysql_message before code state) ≡ some (code, state)
mysql_search_lem before code state rc rs =
    elim (Option-cases (mysql_search (mysql_message before code state))) [
      | inl missed ↦ absurd (mysql_search_complete before code state rc rs missed)
      | inr (found, e) ↦ e ∙ ap some (same found e)
    ]
  where
    same :
        (found : Text × Text)
        → mysql_search (mysql_message before code state) ≡ some found
        → found ≡ (code, state)
    same (code', state') e =
        let (before', tail, shape, end, rc', rs') = mysql_search_sound _ code' state' e in
        let (ec, es) =
          found_fields before before' code code' state state' tail shape end rc rs rc' rs' in
        cc
