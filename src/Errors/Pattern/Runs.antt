-- ===== src/Errors/Pattern/Runs.antt =====
-- Runs of a character class at the end of a text: where they begin is determined by the text.
use mathlib.Core.List.{append-nil, append_assoc, append_cancel_right}
use aurora_data_api.Base.{
  ℕ, ◌≡◌, refl, sym, ◌∙◌, ◌≢◌, ◌⊎◌, Bool, true, false, some, none, [], ◌∷◌, ◌++◌, arith, all,
}
use aurora_data_api.Base.Text.{Text, codes}
use aurora_data_api.Errors.Pattern.{match_some, finish, state_label}
use aurora_data_api.Errors.Pattern.Laws.{IsRun, match_some_complete, match_end_sound}

-- What a run of a class leaves in front of it is determined, if no run starts earlier.
module _ (cls : ℕ → Bool) where
  no_member_outside : (u v w : Text) {c : ℕ} → cls c ≡ false → all cls w ≡ true → w ≢ u ++ (c ∷ v)
  no_member_outside [] v [] out run e = cc
  no_member_outside (x ∷ u) v [] out run e = cc
  no_member_outside [] v (d ∷ w) out run e = ground arith
  no_member_outside (x ∷ u) v (d ∷ w) out run e =
      no_member_outside u v w out (ground arith) (ground arith)

  pub split_run :
      (u u' v v' : Text) {c c' : ℕ}
      → u ++ (c ∷ v) ≡ u' ++ (c' ∷ v')
      → cls c ≡ false
      → cls c' ≡ false
      → all cls v ≡ true
      → all cls v' ≡ true
      → (u ≡ u') × (v ≡ v')
  split_run [] [] v v' e oc oc' rv rv' = (refl, ground arith)
  split_run [] (x ∷ u') v v' e oc oc' rv rv' =
      absurd (no_member_outside u' v' v oc' rv (ground arith))
  split_run (x ∷ u) [] v v' e oc oc' rv rv' =
      absurd (no_member_outside u v v' oc rv' (ground arith))
  split_run (x ∷ u) (y ∷ u') v v' e oc oc' rv rv' =
      let (eu, ev) = split_run u u' v v' (ground arith) oc oc' rv rv' in (ground arith, ev)

-- The label without the blank at its end, which is what stands in front of the last run.
abbrev state_label_word : Text
state_label_word = codes "; SQLState:"

pub regroup_state :
    (u state : Text) → u ++ (state_label ++ state) ≡ (u ++ state_label_word) ++ (b' ' ∷ state)
unfolding state_label
regroup_state u state = sym (append_assoc u state_label_word (b' ' ∷ state))

-- The run behind the last label is determined by the text.
pub last_state_unique :
    (cls : ℕ → Bool) (u u' state state' : Text)
    → u ++ (state_label ++ state) ≡ u' ++ (state_label ++ state')
    → cls b' ' ≡ false
    → all cls state ≡ true
    → all cls state' ≡ true
    → (u ≡ u') × (state ≡ state')
last_state_unique cls u u' state state' e blank rs rs' =
    let regrouped = sym (regroup_state u state) ∙ e ∙ regroup_state u' state' in
    let (eu, es) = split_run cls _ _ state state' regrouped blank blank rs rs' in
    (append_cancel_right u u' state_label_word eu, es)

pub finish_step :
    (first state s : Text) {r : Text × Text}
    → finish first state s ≡ some r
    → ((first, state) ≡ r) × ((s ≡ []) ⊎ (s ≡ b'\n' ∷ []))
unfolding finish
finish_step first state s h = match_end_sound (first, state) s h

pub finish_complete :
    (cls : ℕ → Bool) (first state : Text)
    → IsRun cls state
    → match_some cls (finish first) state ≢ none
unfolding finish
finish_complete cls first state rs =
    rw append-nil at (match_some_complete cls (finish first) state [] rs (λ e. cc))

-- A newline behind the last field is in no such run.
pub no_newline_tail :
    (cls : ℕ → Bool) (u u' state state' : Text)
    → cls b' ' ≡ false
    → cls b'\n' ≡ false
    → IsRun cls state
    → u ++ (state_label ++ state) ≢ u' ++ (state' ++ (b'\n' ∷ []))
no_newline_tail cls u u' state state' blank newline rs e =
    let regrouped = sym (regroup_state u state) ∙ e ∙ sym (append_assoc u' state' (b'\n' ∷ [])) in
    let (_, nil) = split_run cls _ (u' ++ state') state [] regrouped blank newline rs.0 refl in
    ground arith
