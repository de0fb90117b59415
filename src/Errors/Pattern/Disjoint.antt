-- ===== src/Errors/Pattern/Disjoint.antt =====
-- The two patterns of exceptions/translate.py exclude one another, so their order does not matter for
-- the messages of PostgreSQL; and a SQL state with a letter in it escapes the pattern for MySQL.
use mathlib.Core.List.{append_assoc}
use aurora_data_api.Base.{
  ℕ, ◌≡◌, refl, sym, ◌∙◌, ◌≢◌, inl, inr, Bool, none, some, true, false, [], ◌∷◌, ◌++◌, ◌==◌, ◌||◌,
  arith, Option-cases, all,
}
use aurora_data_api.Base.Text.{Text, codes}
use aurora_data_api.Base.Decimal.{is_digit, is_word}
use aurora_data_api.Errors.Pattern.{
  code_label, state_label, position_label, error_label, mysql_search, postgresql_search,
}
use aurora_data_api.Errors.Pattern.Laws.{IsRun}
use aurora_data_api.Errors.Pattern.Runs.{split_run}
use aurora_data_api.Errors.Pattern.Mysql.{
  mysql_message, regroup_code, mysql_search_sound, flat_message as flat_mysql,
}
use aurora_data_api.Errors.Pattern.Postgresql.{
  Separator, separator_text, postgresql_message, postgresql_front, flat_message, state_unique,
  postgresql_search_sound,
}

digit-word : (s : Text) → all is_digit s ≡ true → all is_word s ≡ true
unfolding is_digit is_word
digit-word [] h = refl
digit-word (c ∷ s) h = ground (arith, digit-word s)

regroup_position :
    (u position : Text)
    → u ++ (position_label ++ position) ≡ (u ++ codes " Position:") ++ (b' ' ∷ position)
unfolding position_label
regroup_position u position = sym (append_assoc u (codes " Position:") (b' ' ∷ position))

-- `n` and `:`, which end one of the labels and not the other.
abbrev label_end : ℕ → Bool
label_end c = c == b'n' || c == b':'

labels_differ : (u u' : Text) → u ++ codes "Error code:" ≢ u' ++ codes " Position:"
labels_differ u u' e =
    let regrouped =
      append_assoc u (codes "Error cod") (codes "e:")
      ∙ e
      ∙ sym (append_assoc u' (codes " Positi") (codes "on:")) in
    let (_, runs) =
      split_run label_end _ _ (codes ":") (codes "n:") regrouped refl refl refl refl in
    ground arith

code_or_position :
    (u u' code position : Text)
    → IsRun is_digit code
    → IsRun is_digit position
    → u ++ (code_label ++ code) ≢ u' ++ (position_label ++ position)
unfolding is_digit
code_or_position u u' code position rc rp e =
    let regrouped = sym (regroup_code u code) ∙ e ∙ regroup_position u' position in
    labels_differ u u' (split_run is_digit _ _ code position regrouped refl refl rc.0 rp.0).0

front_position :
    (before text : Text) (sep : Separator) (position : Text)
    → postgresql_front before text sep position
      ≡ (before ++ (error_label ++ (text ++ separator_text sep))) ++ (position_label ++ position)
unfolding postgresql_front
front_position before text sep position = simp append_assoc

-- What the pattern for MySQL would have to find in a text that ends with a SQL state.
mysql_found_state :
    (u state code state' : Text)
    → IsRun is_word state
    → mysql_search (u ++ (state_label ++ state)) ≡ some (code, state')
    → (before : Text) × (u ≡ before ++ (code_label ++ code))
      × (state ≡ state')
      × IsRun is_digit code
      × IsRun is_digit state'
mysql_found_state u state code state' rs e =
    let (before, tail, shape, end, rc, rs') = mysql_search_sound _ code state' e in
    let (eu, es) =
      state_unique u (before ++ (code_label ++ code)) state state' tail
        (shape ∙ sym (flat_mysql before code (state' ++ tail))) end rs
        (digit-word state' rs'.0, rs'.1) in
    (before, eu, es, rc, rs')

-- The search for an error of MySQL finds nothing in a message that ends as PostgreSQL ends its
-- errors with a position.
pub mysql_search-postgresql :
    (before text : Text) (sep : Separator) (position state : Text)
    → IsRun is_digit position
    → IsRun is_word state
    → mysql_search (postgresql_message before text sep position state) ≡ none
mysql_search-postgresql before text sep position state rp rs =
    elim (Option-cases (mysql_search (postgresql_message before text sep position state))) [
      | inl missed ↦ missed
      | inr (found, e) ↦ absurd (mistaken found e)
    ]
  where
    mistaken :
        (found : Text × Text)
        → ¬ (mysql_search (postgresql_message before text sep position state) ≡ some found)
    mistaken (code, state') e =
        let (u, eu, es, rc, rs') =
          mysql_found_state (postgresql_front before text sep position) state code state' rs
            (rw flat_message at e) in
        code_or_position u (before ++ (error_label ++ (text ++ separator_text sep))) code position
          rc rp (sym eu ∙ front_position before text sep position)

-- The search for an error of MySQL finds nothing in a message that ends in a SQL state of word
-- characters that are not all digits.
pub mysql_search-alphanumeric :
    (u state : Text)
    → IsRun is_word state
    → all is_digit state ≡ false
    → mysql_search (u ++ (state_label ++ state)) ≡ none
mysql_search-alphanumeric u state rs letter =
    elim (Option-cases (mysql_search (u ++ (state_label ++ state)))) [
      | inl missed ↦ missed
      | inr (found, e) ↦ absurd (mistaken found e)
    ]
  where
    mistaken : (found : Text × Text) → ¬ (mysql_search (u ++ (state_label ++ state)) ≡ some found)
    mistaken (code, state') e =
        let (before, eu, es, rc, rs') = mysql_found_state u state code state' rs e in
        let digits = rw (← es) at rs'.0 in cc

-- The search for an error of PostgreSQL finds nothing in a message that ends in a code and a SQL
-- state as MySQL writes them, be the state digits or letters.
pub postgresql_search-mysql :
    (before code state : Text)
    → IsRun is_digit code
    → IsRun is_word state
    → postgresql_search (mysql_message before code state) ≡ none
postgresql_search-mysql before code state rc rs =
    elim (Option-cases (postgresql_search (mysql_message before code state))) [
      | inl missed ↦ missed
      | inr (found, e) ↦ absurd (mistaken found e)
    ]
  where
    mistaken :
        (found : Text × Text) → ¬ (postgresql_search (mysql_message before code state) ≡ some found)
    mistaken (position, state') e =
        let (b, t, sep, tail, shape, end, rp, rs') = postgresql_search_sound _ position state' e in
        let (eu, _) =
          state_unique (before ++ (code_label ++ code)) (postgresql_front b t sep position) state
            state' tail (flat_mysql before code state ∙ shape) end rs rs' in
        code_or_position before (b ++ (error_label ++ (t ++ separator_text sep))) code position rc
          rp (eu ∙ front_position b t sep position)
