-- ===== src/Base/Decimal.antt =====
-- `str(n)` and `int(digits)` for natural numbers, and the character classes `\d` and `\w`, over ASCII.
use Prim.Native.Nat.{ℕ, zero, suc, ◌+◌, ◌-◌, ◌*◌, ◌/◌, ◌%◌, ◌<◌}
use mathlib.Core.Path.{◌≡◌, refl, ◌∙◌}
use mathlib.Core.Logic.{inl, inr}
use mathlib.Core.Bool.{Bool, true, ◌&&◌, ◌||◌}
use mathlib.Core.List.{[], ◌∷◌}
use native.Mathlib.Omega.{arith}
use aurora_data_api.Base.Tests.{◌==◌, ltb, leb, if◌then◌else◌, Bool-cases}
use aurora_data_api.Base.Lists.{all, is_nonempty}
use aurora_data_api.Base.Text.{Text}

unfoldable pub is_digit : ℕ → Bool
is_digit c = leb b'0' c && leb c b'9'

unfoldable pub is_word : ℕ → Bool
unfolding is_digit
is_word c = is_digit c || leb b'a' c && leb c b'z' || leb b'A' c && leb c b'Z' || c == b'_'

-- The digits of `n` in front of `acc`.
digits : ℕ → ℕ → Text → Text
digits zero n acc = acc
digits (suc f) n acc =
    let rest = digits f (n / 10) ((b'0' + n % 10) ∷ acc) in
    if ltb n 10 then (b'0' + n) ∷ acc else rest

unfoldable pub show_nat : ℕ → Text
unfolding digits
show_nat n = digits (suc n) n []

parse_from : ℕ → Text → ℕ
parse_from a [] = a
parse_from a (c ∷ s) = parse_from (a * 10 + (c - b'0')) s

unfoldable pub parse_nat : Text → ℕ
unfolding parse_from
parse_nat = parse_from 0

parse_from-digits :
    (f n : ℕ) (acc : Text) → n < f → parse_from 0 (digits f n acc) ≡ parse_from n acc
unfolding digits parse_from
parse_from-digits zero n acc h = elim h [ ]
parse_from-digits (suc f) n acc h = elim (Bool-cases (ltb n 10)) [
  | inl small ↦ rw small (same_acc n acc)
  | inr large ↦
      rw large
        (parse_from-digits f (n / 10) ((b'0' + n % 10) ∷ acc) (ground arith) ∙ last_digit n acc)
]
  where
    same_acc : (n : ℕ) (acc : Text) → parse_from (0 * 10 + (48 + n - 48)) acc ≡ parse_from n acc
    same_acc n acc = let e : 0 * 10 + (48 + n - 48) ≡ n = omega arith in rw e

    last_digit :
        (n : ℕ) (acc : Text) → parse_from (n / 10 * 10 + (48 + n % 10 - 48)) acc ≡ parse_from n acc
    last_digit n acc = let e : n / 10 * 10 + (48 + n % 10 - 48) ≡ n = omega arith in rw e

-- `int(str(n))` is `n`.
pub parse_nat-show_nat : (n : ℕ) → parse_nat (show_nat n) ≡ n
unfolding parse_nat show_nat
parse_nat-show_nat n = parse_from-digits (suc n) n [] (omega arith)

all-digits : (f n : ℕ) (acc : Text) → all is_digit acc ≡ true → all is_digit (digits f n acc) ≡ true
unfolding digits is_digit
all-digits zero n acc h = h
all-digits (suc f) n acc h = ground (arith, all-digits f (n / 10) ((b'0' + n % 10) ∷ acc))

nonempty_digits :
    (f n : ℕ) (acc : Text) → is_nonempty acc ≡ true → is_nonempty (digits f n acc) ≡ true
unfolding digits
nonempty_digits zero n acc h = h
nonempty_digits (suc f) n acc h = ground (arith, nonempty_digits f (n / 10) ((b'0' + n % 10) ∷ acc))

-- A numeral is a nonempty run of digits.
pub show_nat_digits :
    (n : ℕ) → (all is_digit (show_nat n) ≡ true) × (is_nonempty (show_nat n) ≡ true)
unfolding show_nat
show_nat_digits n = (
  all-digits (suc n) n [] refl,
  ground (arith, nonempty_digits n (n / 10) ((b'0' + n % 10) ∷ [])),
)
