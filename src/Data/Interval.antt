-- ===== src/Data/Interval.antt =====
-- internal/data/interval.go: interval texts such as `15m`, and their durations in nanoseconds.
-- A duration is an int64, kept here as its bit pattern below 2 ^ 64. For a text that stands for less
-- than 2 ^ 63 nanoseconds (292 years) that is Go's duration. A longer text may wrap to a pattern of
-- 2 ^ 63 or more, which is negative in Go and a large number wherever a duration is used here.
pub mod Bounds
use tictick_hi.Base.{
  ℕ, zero, suc, ◌+◌, ◌-◌, ◌*◌, ◌/◌, ◌%◌, ◌^◌, String, Bool, ◌&&◌, Option, none, some, List, [], ◌∷◌,
  ltb, leb, ◌==◌, if◌then◌else◌, Result, ok, err, ◌>>=◌, ◌>>◌, refuse_if, length, last_or, codes,
}
use tictick_hi.Base.Int.{ℤ, pos, negsuc, sub_ℕ}

pub data IntervalError : Type 0 where
  invalid_interval unsupported_interval : IntervalError

abbrev pub minute : ℕ
minute = 60_000_000_000

abbrev pub hour : ℕ
hour = 3_600_000_000_000

abbrev pub int64_limit : ℕ
int64_limit = 2 ^ 63

-- int64 multiplication wraps.
abbrev pub wrap64 : ℕ → ℕ
wrap64 n = n % 2 ^ 64

abbrev pub is_digit : ℕ → Bool
is_digit c = leb b'0' c && leb c b'9'

-- The digits read so far stand for `acc`.
unfoldable pub digits_from : ℕ → List ℕ → Option ℕ
digits_from acc [] = some acc
digits_from acc (c ∷ cs) =
    let rest = digits_from (acc * 10 + (c - b'0')) cs in if is_digit c then rest else none

unfoldable pub digits : List ℕ → Option ℕ
unfolding digits_from
digits [] = none
digits (c ∷ cs) = digits_from 0 (c ∷ cs)

abbrev pub in_range : Bool → ℤ → Option ℤ
in_range b n = if b then some n else none

abbrev pub positive_int : Option ℕ → Option ℤ
positive_int none = none
positive_int (some n) = in_range (ltb n int64_limit) (pos n)

abbrev pub negative_int : Option ℕ → Option ℤ
negative_int none = none
negative_int (some n) = in_range (leb n int64_limit) (sub_ℕ 0 n)

-- `strconv.Atoi`: an optional sign and decimal digits, within int64.
unfoldable pub atoi : List ℕ → Option ℤ
unfolding digits
atoi [] = none
atoi (c ∷ cs) =
    if c == b'-'
    then negative_int (digits cs)
    else (if c == b'+' then positive_int (digits cs) else positive_int (digits (c ∷ cs)))

-- `err != nil || value <= 0` refuses; otherwise the value.
abbrev pub positive_value : Option ℤ → Result IntervalError ℕ
positive_value none = err invalid_interval
positive_value (some (pos zero)) = err invalid_interval
positive_value (some (pos (suc n))) = ok (suc n)
positive_value (some (negsuc n)) = err invalid_interval

-- `interval[:len(interval)-1]`
abbrev pub all_but_last : List ℕ → List ℕ
all_but_last [] = []
all_but_last (c ∷ []) = []
all_but_last (c ∷ d ∷ cs) = c ∷ all_but_last (d ∷ cs)

-- The `switch` on the unit.
unfoldable pub scale : ℕ → ℕ → Result IntervalError ℕ
scale unit value =
    if unit == b'm'
    then ok (wrap64 (value * minute))
    else (if unit == b'h'
        then ok (wrap64 (value * hour))
        else (if unit == b'd'
            then ok (wrap64 (wrap64 (value * 24) * hour))
            else err unsupported_interval))

unfoldable pub parse_interval : List ℕ → Result IntervalError ℕ
unfolding atoi scale
parse_interval cs = do
  refuse_if (ltb (length cs) 2) invalid_interval
  value ← positive_value (atoi (all_but_last cs))
  scale (last_or 0 cs) value

unfoldable pub interval_duration : String → Result IntervalError ℕ
unfolding parse_interval
interval_duration interval = parse_interval (codes interval)

-- candle_provider.go: the interval that longer ones are built from.
abbrev pub base_candle_interval : String
base_candle_interval = "1m"

-- aggregate.go: the start of the window that holds an instant. Instants are nanoseconds since the
-- Unix epoch. This is alignTime where the duration is positive: Go panics where it is 0, and takes
-- the remainder by its absolute value where it is negative, that is, from 2 ^ 63 on.
unfoldable pub align_time : ℕ → ℕ → ℕ
align_time value duration = value / duration * duration
