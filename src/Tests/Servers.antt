-- ===== src/Tests/Servers.antt =====
-- A server with one cursor over three records, by the texts of the statements it gets.
use aurora_data_api.Base.{
  ◌⊎◌, ℕ, ◌+◌, ◌-◌, ◌≤◌, ◌≡◌, ◌≢◌, refl, sym, ap, ◌∙◌, Bool, true, false, Option, none, some, List,
  [], ◌∷◌, if◌then◌else◌, ◌==◌, take, drop, length, arith, ltb, inl, inr, Bool-cases, ◌++◌, all,
  suc, zero, is_nonempty,
}
use aurora_data_api.Base.Text.{contains, Text, codes}
use aurora_data_api.Base.Decimal.{
  show_nat, parse_nat, is_digit, parse_nat-show_nat, show_nat_digits,
}
use aurora_data_api.Base.Int.{pos}
use aurora_data_api.Base.Exec.{Ends, Result, ok, raised}
use aurora_data_api.Convert.{Field, long_field, scalar}
use aurora_data_api.Value.{int_value}
use aurora_data_api.Errors.Classes.{is_instance, Exn, new_exn, bad_request}
use aurora_data_api.Platform.{Response, Platform}
use aurora_data_api.Env.{Row}
use aurora_data_api.Statements.{cursor_name, size_limit, fetch_stmt, move_stmt, declare_stmt}
use aurora_data_api.Async.Cursor.{fetch_stmt as fetch_stmt_async}
use aurora_data_api.Async.Cursor.Same.Pages.{FetchesForward}
use aurora_data_api.Cursor.{negated}
use aurora_data_api.Connection.{prepare_execute_args}
use aurora_data_api.Cursor.Execute.{module_name, execute_args}
use aurora_data_api.Cursor.Fetch.Server.{Serves, page}
use aurora_data_api.Cursor.Fetch.Server.Pages.{Risk, is_halved}
use aurora_data_api.Cursor.Paging.{Responds}
use aurora_data_api.Value.{Stdlib}
use aurora_data_api.Tests.Clients.{fresh_connection, too_large}
use aurora_data_api.Tests.Library.{Encoded}

abbrev pub kept : List (List Field)
kept = (long_field (pos 1) ∷ []) ∷ (long_field (pos 2) ∷ []) ∷ (long_field (pos 3) ∷ []) ∷ []

abbrev pub kept_rows : List Row
kept_rows =
    (scalar (int_value (pos 1)) ∷ [])
    ∷ (scalar (int_value (pos 2)) ∷ [])
    ∷ (scalar (int_value (pos 3)) ∷ [])
    ∷ []

-- The digits that a text starts with.
unfoldable leading : Text → Text
leading [] = []
leading (c ∷ s) = let rest = leading s in if is_digit c then c ∷ rest else []

-- The first run of digits in a text.
unfoldable first_digits : Text → Text
unfolding leading
first_digits [] = []
first_digits (c ∷ s) = let rest = first_digits s in if is_digit c then leading (c ∷ s) else rest

leading_lem : (t s : Text) → all is_digit t ≡ true → leading (t ++ (b' ' ∷ s)) ≡ t
unfolding leading is_digit
leading_lem [] s h = refl
leading_lem (c ∷ t) s h = elim (Bool-cases (is_digit c)) [
  | inl digit ↦
      let rest : all is_digit t ≡ true = rw digit at h in
      rw digit (ap (◌∷◌ c) (leading_lem t s rest))
  | inr other ↦ let never : false ≡ true = rw other at h in absurd (cc)
]

first_digits_lem :
    (t s : Text)
    → (all is_digit t ≡ true) × (is_nonempty t ≡ true)
    → first_digits (t ++ (b' ' ∷ s)) ≡ t
unfolding first_digits
first_digits_lem [] s (h, k) = absurd (cc)
first_digits_lem (c ∷ t) s (h, k) = elim (Bool-cases (is_digit c)) [
  | inl digit ↦
      let rest : all is_digit t ≡ true = rw digit at h in
      rw digit (ap (◌∷◌ c) (leading_lem t s rest))
  | inr other ↦ let never : false ≡ true = rw other at h in absurd (cc)
]

number : Text → ℕ
unfolding first_digits
number sql = parse_nat (first_digits sql)

numeral : (n : ℕ) (s : Text) → parse_nat (first_digits (show_nat n ++ (b' ' ∷ s))) ≡ n
numeral n s =
    ap parse_nat (first_digits_lem (show_nat n) s (show_nat_digits n)) ∙ parse_nat-show_nat n

number-fetch_stmt : (n : ℕ) (name : Text) → number (fetch_stmt n name) ≡ n
unfolding number first_digits fetch_stmt is_digit
number-fetch_stmt n name = numeral n _

number-fetch_stmt_async : (n : ℕ) (name : Text) → number (fetch_stmt_async n name) ≡ n
unfolding number first_digits fetch_stmt_async is_digit
number-fetch_stmt_async n name = numeral n _

number-move_stmt :
    (n : ℕ) (name : Text) → 1 ≤ n → number (move_stmt (codes "relative") (negated n) name) ≡ n
unfolding number first_digits move_stmt is_digit
number-move_stmt zero name h = absurd (omega (arith, h))
number-move_stmt (suc n) name h = numeral (suc n) _

abbrev unknown_cursor : Exn
unknown_cursor = new_exn bad_request (codes "cursor does not exist")

-- The state is the position of the cursor, if there is one. A page of more than `limit` records is
-- refused; the cursor is deleted, if `deletes`, or has passed them.
abbrev pub after_refusal : Bool → ℕ → ℕ → Option ℕ
after_refusal true n p = none
after_refusal false n p = some (p + n)

unfoldable pub answer_fetch : Bool → ℕ → ℕ → Option ℕ → Result Exn Response × Option ℕ
answer_fetch deletes limit n none = (raised unknown_cursor, none)
answer_fetch deletes limit n (some p) =
    if ltb limit n
    then (raised too_large, after_refusal deletes n p)
    else (ok (page none (take n (drop p kept))), some (p + length (take n (drop p kept))))

unfoldable pub answer_move : ℕ → Option ℕ → Result Exn Response × Option ℕ
answer_move n none = (raised unknown_cursor, none)
answer_move n (some p) = (ok (page none []), some (p - n))

-- DECLARE, FETCH and MOVE by their first letters; any other statement has a result that is too large.
unfoldable answer_letter : Bool → ℕ → ℕ → ℕ → Option ℕ → Result Exn Response × Option ℕ
unfolding answer_fetch answer_move
answer_letter deletes limit c n w =
    if c == b'F'
    then answer_fetch deletes limit n w
    else if c == b'M'
    then answer_move n w
    else if c == b'D'
    then (ok (page none []), some 0)
    else (raised too_large, w)

unfoldable pub serve : Bool → ℕ → Text → Option ℕ → Result Exn Response × Option ℕ
unfolding answer_letter number
serve deletes limit [] w = (raised too_large, w)
serve deletes limit (c ∷ sql) w = answer_letter deletes limit c (number (c ∷ sql)) w

abbrev pub Serving : Bool → ℕ → Platform
Serving deletes limit = record {
  State = Option ℕ;
  execute_statement = λ args w. serve deletes limit args.sql w;
  batch_execute_statement = λ args w. (ok tt, w);
  begin_transaction = λ args w. (ok (some (codes "tx1")), w);
  commit_transaction = λ args w. (ok (some (codes "Transaction Committed")), w);
  rollback_transaction = λ args w. (ok tt, none);
  sleep = λ d w. w;
  cursor_suffix = λ w. (codes "1700000000_abcdefgh", w);
}

abbrev pub select : Text
select = codes "SELECT n FROM t"

pub left_after :
    (deletes : Bool) (n p : ℕ) (w : Option ℕ)
    → w ≡ after_refusal deletes n p
    → (w ≡ none) ⊎ (w ≡ some (p + n))
left_after true n p w e = inl e
left_after false n p w e = inr e

module _ (deletes : Bool) (limit : ℕ) where
  pub serve_fetch :
      (n : ℕ) (name : Text) (w : Option ℕ)
      → serve deletes limit (fetch_stmt n name) w ≡ answer_fetch deletes limit n w
  unfolding serve answer_letter fetch_stmt
  serve_fetch n name w = ap (λ k. answer_fetch deletes limit k w) (number-fetch_stmt n name)

  serve_fetch_async :
      (n : ℕ) (name : Text) (w : Option ℕ)
      → serve deletes limit (fetch_stmt_async n name) w ≡ answer_fetch deletes limit n w
  unfolding serve answer_letter fetch_stmt_async
  serve_fetch_async n name w =
      ap (λ k. answer_fetch deletes limit k w) (number-fetch_stmt_async n name)

  pub serve_move :
      (n : ℕ) (name : Text) (w : Option ℕ)
      → 1 ≤ n
      → serve deletes limit (move_stmt (codes "relative") (negated n) name) w ≡ answer_move n w
  unfolding serve answer_letter move_stmt
  serve_move n name w h = ap (λ k. answer_move k w) (number-move_stmt n name h)

  pub serves_forward : FetchesForward (Serving deletes limit)
  serves_forward args n name w = serve_fetch_async n name w ∙ sym (serve_fetch n name w)

  pub fetched :
      (n p : ℕ) (w' : Option ℕ) (response : Response)
      → answer_fetch deletes limit n (some p) ≡ (ok response, w')
      → (response ≡ page none (take n (drop p kept)))
        × (w' ≡ some (p + length (take n (drop p kept))))
  unfolding answer_fetch
  fetched n p w' response h = elim (Bool-cases (ltb limit n)) [
    | inl large ↦ let bad = rw large at h in absurd (cc)
    | inr fits ↦ let good = rw fits at h in (cc, cc)
  ]

  pub moved :
      (n p : ℕ) (w' : Option ℕ) (response : Response)
      → answer_move n (some (p + n)) ≡ (ok response, w')
      → w' ≡ some p
  unfolding answer_move
  moved n p w' response h =
      let back : p + n - n ≡ p = omega arith in sym (ap (λ r. r.1) h) ∙ ap some back

  pub unmoved :
      (n : ℕ) (w' : Option ℕ) (response : Response) → answer_move n none ≢ (ok response, w')
  unfolding answer_move
  unmoved n w' response h = cc

  pub declared :
      (name : Text) (w w' : Option ℕ) (response : Response)
      → serve deletes limit (declare_stmt name select) w ≡ (ok response, w')
      → w' ≡ some 0
  unfolding serve answer_letter declare_stmt
  declared name w w' response h = sym (ap (λ r. r.1) h)

  answer_fetch-Ends : (n : ℕ) (w : Option ℕ) → Ends (answer_fetch deletes limit n w).0
  unfolding answer_fetch
  answer_fetch-Ends n none = tt
  answer_fetch-Ends n (some p) = elim (Bool-cases (ltb limit n)) [
    | inl large ↦ rw large tt
    | inr fits ↦ rw fits tt
  ]

  answer_move-Ends : (n : ℕ) (w : Option ℕ) → Ends (answer_move n w).0
  unfolding answer_move
  answer_move-Ends n none = tt
  answer_move-Ends n (some p) = tt

  letter-Ends : (c n : ℕ) (w : Option ℕ) → Ends (answer_letter deletes limit c n w).0
  unfolding answer_letter
  letter-Ends c n w = elim (Bool-cases (c == b'F')) [
    | inl f ↦ rw f (answer_fetch-Ends n w)
    | inr g ↦ elim (Bool-cases (c == b'M')) [
      | inl m ↦ rw (g, m) (answer_move-Ends n w)
      | inr l ↦ elim (Bool-cases (c == b'D')) [ inl d ↦ rw (g, l, d) tt | inr o ↦ rw (g, l, o) tt ]
    ]
  ]

  serve-Ends : (sql : Text) (w : Option ℕ) → Ends (serve deletes limit sql w).0
  unfolding serve
  serve-Ends [] w = tt
  serve-Ends (c ∷ sql) w = letter-Ends c _ w

  pub refused_page :
      (n p : ℕ) (w' : Option ℕ) (e : Exn)
      → answer_fetch deletes limit n (some p) ≡ (raised e, w')
      → (ltb limit n ≡ true) × (e ≡ too_large) × (w' ≡ after_refusal deletes n p)
  unfolding answer_fetch
  refused_page n p w' e h = elim (Bool-cases (ltb limit n)) [
    | inl large ↦ let bad = rw large at h in (large, cc, cc)
    | inr fits ↦ let good = rw fits at h in absurd (cc)
  ]

  unfoldable pub server : Serves (Serving deletes limit)
  unfolding prepare_execute_args
  server = record {
    execute_statement_args = execute_args Encoded fresh_connection select none;
    columns = none;
    records = kept;
    position = λ name w. w;
    declares = λ name w w' response h. declared name w w' response h;
    returns = λ name n p w w' response least at h.
        fetched n p w' response
          (ap (answer_fetch deletes limit n) (sym at) ∙ sym (serve_fetch n name w) ∙ h);
    refuses = λ name n p w w' e least at h unsupported oversize.
        let (_, _, after) =
          refused_page n p w' e
            (ap (answer_fetch deletes limit n) (sym at) ∙ sym (serve_fetch n name w) ∙ h) in
        left_after deletes n p w' after;
    moves = λ name n p w w' response least at h.
        moved n p w' response (ap (answer_move n) (sym at) ∙ sym (serve_move n name w least) ∙ h);
    absent = λ name n w w' response least at h.
        unmoved n w' response (ap (answer_move n) (sym at) ∙ sym (serve_move n name w least) ∙ h);
  }

  pub serves_responds : Responds (Serving deletes limit)
  serves_responds args w = serve-Ends args.sql w

-- A server that keeps its cursors and refuses no page of one record raises no exception that the driver
-- does not deal with.
module _ (limit : ℕ) (least_limit : 1 ≤ limit) where
  halves_too_large : (n : ℕ) → ltb limit n ≡ true → is_halved n too_large ≡ true
  unfolding is_instance contains size_limit
  halves_too_large n h = ground (arith, least_limit)

  answer_move-returns :
      (n p : ℕ) (w w' : Option ℕ) (e : Exn) → w ≡ some p → answer_move n w ≢ (raised e, w')
  unfolding answer_move
  answer_move-returns n p w w' e at h =
      let returns : answer_move n (some p) ≡ (raised e, w') = ap (answer_move n) (sym at) ∙ h in cc

  pub keeps-Risk : (L : Stdlib) (largest : ℕ) → Risk L (server false limit) ⊥ largest
  unfolding server
  keeps-Risk L largest = record {
    gives_up = λ name n p w w' e least most at h given_up.
        let (large, same, _) =
          refused_page false limit n p w' e (
            ap (answer_fetch false limit n) (sym at)
            ∙ sym (serve_fetch false limit n name w)
            ∙ h) in
        let halved = ap (is_halved n) same ∙ halves_too_large n large in absurd (cc);
    stuck = λ name n p w w' w'' e e' most at h halved moves.
        let (large, _, after) =
          refused_page false limit n p w' e (
            ap (answer_fetch false limit n) (sym at)
            ∙ sym (serve_fetch false limit n name w)
            ∙ h) in
        let least : 1 ≤ n = ground (arith, large) in
        answer_move-returns n (p + n) w' w'' e' after
          (sym (serve_move false limit n name w' least) ∙ moves);
  }

module _ (deletes : Bool) (limit : ℕ) where
  declared_answer :
      (name sql : Text) (w w' : Option ℕ) (e : Exn)
      → serve deletes limit (declare_stmt name sql) w ≢ (raised e, w')
  unfolding serve answer_letter declare_stmt
  declared_answer name sql w w' e h = cc

  pub declares_returns :
      (e : Exn) (w w' : Option ℕ)
      → serve deletes limit
          (declare_stmt
            (cursor_name module_name (codes "1700000000_abcdefgh"))
            (server deletes limit).execute_statement_args.sql)
          w
        ≢ (raised e, w')
  declares_returns e w w' h = declared_answer _ _ w w' e h
