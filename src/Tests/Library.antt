-- ===== src/Tests/Library.antt =====
-- A standard library whose texts are the numbers of a value, one after the other.
use aurora_data_api.Base.{
  zero, suc, ap, ℕ, ◌≡◌, refl, Bool, true, false, Option, none, some, [], ◌∷◌, if◌then◌else◌, ◌==◌,
}
use aurora_data_api.Base.Text.{Text}
use aurora_data_api.Base.Int.{ℤ, pos, negsuc}
use aurora_data_api.Value.{Decimal, Date, Time, DateTime, Stdlib, ReadsBack}

int_text : ℤ → Text → Text
int_text (pos n) rest = 0 ∷ n ∷ rest
int_text (negsuc n) rest = 1 ∷ n ∷ rest

pub decimal_text : Decimal → Text
unfolding int_text
decimal_text d = (if d.negative then 1 else 0) ∷ d.coefficient ∷ int_text d.exponent []

text_int : ℕ → ℕ → ℤ
text_int zero n = pos n
text_int (suc k) n = negsuc n

pub text_decimal : Text → Option Decimal
unfolding text_int
text_decimal (s ∷ c ∷ k ∷ n ∷ []) =
    some (record { negative = s == 1; coefficient = c; exponent = text_int k n })
text_decimal _ = none

pub date_text : Date → Text
date_text d = d.year ∷ d.month ∷ d.day ∷ []

pub text_date : Text → Option Date
text_date (y ∷ m ∷ d ∷ []) = some (record { year = y; month = m; day = d })
text_date _ = none

zone_text : Option ℤ → Text
unfolding int_text
zone_text none = []
zone_text (some z) = int_text z []

pub time_text : Time → Text
unfolding zone_text
time_text t = t.hour ∷ t.minute ∷ t.second ∷ t.microsecond ∷ zone_text t.tzinfo

text_zone : Text → Option ℤ
unfolding text_int
text_zone (k ∷ n ∷ []) = some (text_int k n)
text_zone _ = none

unfoldable pub text_time : Text → Option Time
unfolding text_zone
text_time (h ∷ m ∷ s ∷ u ∷ zone) =
    some (record { hour = h; minute = m; second = s; microsecond = u; tzinfo = text_zone zone })
text_time _ = none

pub datetime_text : DateTime → Text
unfolding time_text
datetime_text d = d.date.year ∷ d.date.month ∷ d.date.day ∷ time_text d.time

with_date : Date → Option Time → Option DateTime
with_date d none = none
with_date d (some t) = some (record { date = d; time = t })

pub text_datetime : Text → Option DateTime
unfolding with_date text_time
text_datetime (y ∷ m ∷ d ∷ rest) =
    with_date (record { year = y; month = m; day = d }) (text_time rest)
text_datetime _ = none

abbrev pub Encoded : Stdlib
Encoded = record {
  str_decimal = decimal_text;
  str_date = date_text;
  str_time = time_text;
  str_datetime = datetime_text;
  decimal_of_text = text_decimal;
  decimal_of_float = λ x. none;
  date_fromisoformat = text_date;
  time_fromisoformat = text_time;
  datetime_fromisoformat = text_datetime;
  date_strptime = text_date;
  time_strptime = text_time;
  datetime_strptime_fraction = text_datetime;
  datetime_strptime = text_datetime;
}

zone_back : (z : Option ℤ) → text_zone (zone_text z) ≡ z
unfolding text_zone zone_text
zone_back none = refl
zone_back (some (pos n)) = refl
zone_back (some (negsuc n)) = refl

int_back :
    (s c : ℕ) (z : ℤ)
    → text_decimal (s ∷ c ∷ int_text z [])
      ≡ some (record { negative = s == 1; coefficient = c; exponent = z })
unfolding text_decimal int_text
int_back s c (pos n) = refl
int_back s c (negsuc n) = refl

sign_back :
    (b : Bool) (c : ℕ) (z : ℤ)
    → text_decimal ((if b then 1 else 0) ∷ c ∷ int_text z [])
      ≡ some (record { negative = b; coefficient = c; exponent = z })
sign_back true c z = int_back 1 c z
sign_back false c z = int_back 0 c z

decimal_back : (d : Decimal) → text_decimal (decimal_text d) ≡ some d
unfolding decimal_text
decimal_back d = sign_back d.negative d.coefficient d.exponent

time_back : (t : Time) → text_time (time_text t) ≡ some t
unfolding text_time time_text
time_back t = rw (zone_back t.tzinfo) refl

datetime_back : (d : DateTime) → text_datetime (datetime_text d) ≡ some d
unfolding text_datetime datetime_text
datetime_back d = ap (with_date d.date) (time_back d.time)

date_back : (d : Date) → text_date (date_text d) ≡ some d
unfolding text_date date_text
date_back d = refl

pub encoded-ReadsBack : ReadsBack Encoded
encoded-ReadsBack = record {
  decimal = decimal_back;
  date = date_back;
  time = time_back;
  datetime = datetime_back;
}
