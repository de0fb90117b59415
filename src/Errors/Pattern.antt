-- ===== src/Errors/Pattern.antt =====
-- The part of `re` that exceptions/translate.py uses: `re.search` with literals, greedy repetitions of
-- a character class, capturing groups and `$`, as backtracking matchers in continuation style. What
-- follows a piece of the pattern is its continuation.

pub mod Laws
pub mod Runs
pub mod Mysql
pub mod Postgresql
pub mod Disjoint
use aurora_data_api.Base.{
  ℕ, Bool, true, false, not, Option, none, some, [], ◌∷◌, ◌==◌, if◌then◌else◌,
}
use aurora_data_api.Base.Text.{Text, codes}
use aurora_data_api.Base.Decimal.{is_digit, is_word}

module _ {A : Type 0} where
  abbrev pub or_else : Option A → Option A → Option A
  or_else none o = o
  or_else (some a) _ = some a

  -- A literal.
  pub match_lit : Text → (Text → Option A) → Text → Option A
  match_lit [] k s = k s
  match_lit (c ∷ p) k [] = none
  match_lit (c ∷ p) k (d ∷ s) = elim (c == d) [ true ↦ match_lit p k s | false ↦ none ]

  -- `[cls]*`, longest first; the continuation takes what was matched, and the rest.
  pub match_many : (ℕ → Bool) → (Text → Text → Option A) → Text → Option A
  match_many cls k [] = k [] []
  match_many cls k (c ∷ s) = elim (cls c) [
    | true ↦ or_else (match_many cls (λ g rest. k (c ∷ g) rest) s) (k [] (c ∷ s))
    | false ↦ k [] (c ∷ s)
  ]

  -- `[cls]+`
  pub match_some : (ℕ → Bool) → (Text → Text → Option A) → Text → Option A
  unfolding match_many
  match_some cls k [] = none
  match_some cls k (c ∷ s) = if cls c then match_many cls (λ g rest. k (c ∷ g) rest) s else none

  -- `$`: the end of the text, or just before a newline that ends it.
  pub match_end : A → Text → Option A
  match_end a [] = some a
  match_end a (c ∷ []) = if c == b'\n' then some a else none
  match_end a (c ∷ d ∷ s) = none

  -- `re.search`: the leftmost place where the pattern matches.
  pub search_text : (Text → Option A) → Text → Option A
  search_text m [] = m []
  search_text m (c ∷ s) = or_else (m (c ∷ s)) (search_text m s)

pub code_label : Text
code_label = codes "Error code: "

pub state_label : Text
state_label = codes "; SQLState: "

-- The end of both patterns, behind the last group.
pub finish : Text → Text → Text → Option (Text × Text)
unfolding match_end
finish first state = match_end (first, state)

pub mysql_after_code : Text → Text → Option (Text × Text)
unfolding match_lit match_some finish state_label
mysql_after_code code = match_lit state_label (match_some is_digit (finish code))

-- `Error code: (\d+); SQLState: (\d+)$`
pub mysql_match : Text → Option (Text × Text)
unfolding match_lit match_some mysql_after_code code_label
mysql_match = match_lit code_label (match_some is_digit mysql_after_code)

-- `.`
abbrev pub not_newline : ℕ → Bool
not_newline c = not (c == b'\n')

pub error_label : Text
error_label = codes "ERROR: "

pub position_label : Text
position_label = codes " Position: "

pub postgresql_after_position : Text → Text → Option (Text × Text)
unfolding match_lit match_some finish state_label
postgresql_after_position position = match_lit state_label (match_some is_word (finish position))

pub postgresql_after_separator : Text → Option (Text × Text)
unfolding match_lit match_some postgresql_after_position position_label
postgresql_after_separator =
    match_lit position_label (match_some is_digit postgresql_after_position)

-- `(?:\n |;)` and what follows, behind the `.*`.
pub postgresql_after_text : Text → Text → Option (Text × Text)
unfolding match_lit postgresql_after_separator
postgresql_after_text _ s =
    or_else (match_lit (codes "\n ") postgresql_after_separator s)
      (match_lit (codes ";") postgresql_after_separator s)

-- `ERROR: .*(?:\n |;) Position: (\d+); SQLState: (\w+)$`
pub postgresql_match : Text → Option (Text × Text)
unfolding match_lit match_many postgresql_after_text error_label
postgresql_match = match_lit error_label (match_many not_newline postgresql_after_text)

unfoldable pub mysql_search : Text → Option (Text × Text)
unfolding search_text mysql_match
mysql_search = search_text mysql_match

unfoldable pub postgresql_search : Text → Option (Text × Text)
unfolding search_text postgresql_match
postgresql_search = search_text postgresql_match
