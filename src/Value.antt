-- ===== src/Value.antt =====
-- The Python values that type_conversion.py reads and makes, and what it uses of the standard library.
use aurora_data_api.Base.{ℕ, ◌≡◌, Bool, Option, some, List}
use aurora_data_api.Base.Int.{ℤ, is_negative, magnitude}
use aurora_data_api.Base.Text.{Text}

-- An IEEE 754 double by its bit pattern. The package does not compute with it.
pub record Float : Type 0 where
  pub bits : ℕ

-- A finite `decimal.Decimal`: sign, coefficient and exponent, as `as_tuple` shows them.
pub record Decimal : Type 0 where
  pub negative : Bool
  pub coefficient : ℕ
  pub exponent : ℤ

pub record Date : Type 0 where
  pub year : ℕ
  pub month : ℕ
  pub day : ℕ

-- `tzinfo` is the offset from UTC in seconds, or `none` for a naive time.
pub record Time : Type 0 where
  pub hour : ℕ
  pub minute : ℕ
  pub second : ℕ
  pub microsecond : ℕ
  pub tzinfo : Option ℤ

pub record DateTime : Type 0 where
  pub date : Date
  pub time : Time

-- A value of a parameter or of a field, by its type. `other_value` is an object of any other type
-- by its text.
pub data Value : Type 0 where
  none_value : Value
  bool_value : Bool → Value
  int_value : ℤ → Value
  float_value : Float → Value
  str_value : Text → Value
  bytes_value : List ℕ → Value
  decimal_value : Decimal → Value
  date_value : Date → Value
  time_value : Time → Value
  datetime_value : DateTime → Value
  other_value : Text → Value

-- `str`, `Decimal`, `fromisoformat` and `strptime`; `none` is the ValueError or InvalidOperation of a
-- text that does not parse.
pub record Stdlib : Type 0 where
  pub str_decimal : Decimal → Text
  pub str_date : Date → Text
  pub str_time : Time → Text
  pub str_datetime : DateTime → Text
  pub decimal_of_text : Text → Option Decimal
  pub decimal_of_float : Float → Option Decimal
  pub date_fromisoformat : Text → Option Date
  pub time_fromisoformat : Text → Option Time
  pub datetime_fromisoformat : Text → Option DateTime
  -- "%Y-%m-%d", "%H:%M:%S", "%Y-%m-%d %H:%M:%S.%f" and "%Y-%m-%d %H:%M:%S"
  pub date_strptime : Text → Option Date
  pub time_strptime : Text → Option Time
  pub datetime_strptime_fraction : Text → Option DateTime
  pub datetime_strptime : Text → Option DateTime

-- What the library promises of its own texts: a number, a date or a time is read back from its text.
pub record ReadsBack (L : Stdlib) : Type 0 where
  pub decimal : (d : Decimal) → L.decimal_of_text (L.str_decimal d) ≡ some d
  pub date : (d : Date) → L.date_fromisoformat (L.str_date d) ≡ some d
  pub time : (t : Time) → L.time_fromisoformat (L.str_time t) ≡ some t
  pub datetime : (d : DateTime) → L.datetime_fromisoformat (L.str_datetime d) ≡ some d

-- `Decimal(n)` for an integer.
abbrev pub decimal_of_int : ℤ → Decimal
decimal_of_int n = record {
  negative = is_negative n;
  coefficient = magnitude n;
  exponent = ℤ.pos 0;
}
