-- ===== src/Scenarios/Market.antt =====
-- Candles of one minute, their gaps, their checks and their aggregation: internal/data.
use tictick_hi.Base.{
  ℕ, ◌+◌, ◌-◌, ◌*◌, ◌/◌, ◌≤◌, ◌≡◌, ◌↔◌, refl, sym, inl, arith, String, Bool, true, false, Option,
  none, some, List, [], ◌∷◌, ok, All, ◌==◌, ◌&&◌, ◌++◌, str_eq, str_eq_iff, codes, if◌then◌else◌,
}
use tictick_hi.Base.Int.{pos}
use tictick_hi.Base.Rat.{Rat, rat, lt_rat}
use tictick_hi.Data.Interval.{interval_duration, minute, align_time, digits, parse_interval}
use tictick_hi.Data.Interval.Bounds.{parse_interval-wrap64}
use tictick_hi.Data.Model.{Candle, CandleQuery}
use tictick_hi.Data.Validation.{validate_candle_series, detect_candle_issue}
use tictick_hi.Data.Validation.Series.{IsSound, IsRising, validate_candle_series_iff}
use tictick_hi.Data.Validation.Issues.{detect_candle_issue-validate_candle_series}
use tictick_hi.Data.Gaps.{
  gaps_of_sorted, first_expected_open, detect_candle_gaps_in_range, finish, add_candles,
  new_candle_gap_tracker,
}
use tictick_hi.Data.Gaps.Accounting.{
  IsMultiple, total_missing, Opens, IsWithin, gaps_of_sorted_account,
}
use tictick_hi.Data.Gaps.Tracker.{finish-detect_candle_gaps_in_range}
use tictick_hi.Data.Aggregate.{aggregate_candles, add}
use tictick_hi.Data.Aggregate.Windows.{IsAggregated}
use tictick_hi.Data.Aggregate.Covering.{aggregate_candles-IsAggregated}
use tictick_hi.Data.Query.{
  check_range, normalize_candle_limit, max_candle_limit, blank, validate_candle_query_range,
  validate_data_sync_task_window, is_supported_interval,
}
use tictick_hi.Data.Query.Limits.{
  IsAligned, IsOrdered, validate_candle_query_range-candles, validate_data_sync_task_window_iff,
}
use tictick_hi.Data.Cursor.{
  CandleCursor, validate_candle_cursor, decode_candle_cursor, encode_candle_cursor, normal_cursor,
}
use tictick_hi.Data.Cursor.RoundTrip.{decode-encode_candle_cursor}

-- A reader of decimals that knows the text "1".
abbrev one_reader : String → Option Rat
one_reader text = some (rat (pos 1) 0)

abbrev candle_at : ℕ → Candle
candle_at t = record {
  exchange = "binance";
  symbol = "BTCUSDT";
  interval = "1m";
  open_time = t;
  close_time = t + minute;
  open_price = "1";
  high = "1";
  low = "1";
  close = "1";
  volume = "1";
  is_closed = true;
}

-- The first and the fourth minute.
abbrev two_candles : List Candle
two_candles = candle_at 0 ∷ candle_at 180_000_000_000 ∷ []

minute_lem : interval_duration "1m" ≡ ok minute
unfolding interval_duration
minute_lem = refl

one_minute-IsMultiple : IsMultiple minute minute
unfolding align_time
one_minute-IsMultiple = refl

four_minutes-IsMultiple : IsMultiple minute 240_000_000_000
unfolding align_time
four_minutes-IsMultiple = refl

two_candles-Opens : Opens minute two_candles
unfolding align_time
two_candles-Opens = (refl, (refl, tt))

two_candles-IsRising : IsRising none two_candles
two_candles-IsRising = (tt, (omega arith, tt))

range_first_le : first_expected_open 0 minute ≤ align_time 240_000_000_000 minute
unfolding first_expected_open align_time
range_first_le = omega arith

two_candles-IsWithin :
    IsWithin (first_expected_open 0 minute) (align_time 240_000_000_000 minute) two_candles
unfolding first_expected_open align_time
two_candles-IsWithin = ((omega arith, omega arith), ((omega arith, omega arith), tt))

gaps_of_sorted_account_example :
    (total_missing (gaps_of_sorted minute (some 0) (some 240_000_000_000) two_candles) + 2) * minute
      + first_expected_open 0 minute
    ≡ align_time 240_000_000_000 minute + minute
gaps_of_sorted_account_example =
    gaps_of_sorted_account minute 0 240_000_000_000 two_candles (omega arith) two_candles-Opens
      two_candles-IsRising range_first_le two_candles-IsWithin

finish-detect_candle_gaps_in_range_example :
    detect_candle_gaps_in_range two_candles "1m" none none
    ≡ ok (finish (add_candles (new_candle_gap_tracker minute none none) two_candles))
finish-detect_candle_gaps_in_range_example =
    finish-detect_candle_gaps_in_range two_candles "1m" minute none none minute_lem
      two_candles-IsRising

validate_candle_series_iff_example :
    (validate_candle_series one_reader two_candles "1m" ≡ ok tt)
    ↔ (All (IsSound one_reader minute) two_candles × IsRising none two_candles)
validate_candle_series_iff_example =
    validate_candle_series_iff one_reader two_candles "1m" minute minute_lem

detect_candle_issue-validate_candle_series_example :
    (detect_candle_issue one_reader (candle_at 7) ≡ none)
    ↔ (validate_candle_series one_reader (candle_at 7 ∷ []) "1m" ≡ ok tt)
detect_candle_issue-validate_candle_series_example =
    detect_candle_issue-validate_candle_series one_reader (candle_at 7) minute minute_lem

abbrev hour_query : CandleQuery
hour_query = record {
  exchange = "binance";
  symbol = "BTCUSDT";
  interval = "1m";
  from = some 0;
  to = some 3_600_000_000_000;
  limit = 100;
}

hour_query_valid : validate_candle_query_range hour_query ≡ ok tt
unfolding validate_candle_query_range interval_duration check_range
hour_query_valid = refl

validate_candle_query_range-candles_example :
    (0 ≤ 3_600_000_000_000) × ((3_600_000_000_000 - 0) / minute + 1 ≤ max_candle_limit)
validate_candle_query_range-candles_example =
    validate_candle_query_range-candles hour_query minute 0 3_600_000_000_000 minute_lem
      (omega arith) (omega arith) refl refl hour_query_valid

validate_data_sync_task_window_iff_example :
    (validate_data_sync_task_window "1m" (some 0) (some minute) ≡ ok tt) ↔ (
      (is_supported_interval "1m" ≡ true)
      × IsAligned (some 0) minute
      × IsAligned (some minute) minute
      × IsOrdered (some 0) (some minute))
validate_data_sync_task_window_iff_example =
    validate_data_sync_task_window_iff "1m" (some 0) (some minute) minute minute_lem (omega arith)

abbrev five_candles : List Candle
five_candles =
    candle_at 0
    ∷ candle_at 60_000_000_000
    ∷ candle_at 120_000_000_000
    ∷ candle_at 180_000_000_000
    ∷ candle_at 240_000_000_000
    ∷ []

five_minutes_lem : interval_duration "5m" ≡ ok 300_000_000_000
unfolding interval_duration
five_minutes_lem = refl

abbrev no_order : String → String → Bool
no_order left right = false

abbrev print_one : Rat → String
print_one r = "1"

-- The window of five minutes that the five candles fill.
abbrev five_minute_candle : Candle
five_minute_candle = record (candle_at 0) {
  interval = "5m";
  close_time = 300_000_000_000;
  is_closed = true;
}

five_candles_aggregated :
    aggregate_candles one_reader no_order print_one five_candles "5m" ≡ ok (five_minute_candle ∷ [])
unfolding aggregate_candles interval_duration add align_time lt_rat
five_candles_aggregated = refl

aggregate_candles-IsAggregated_example :
    All (IsAggregated (λ c. c.symbol ≡ "BTCUSDT") 300_000_000_000 minute) (five_minute_candle ∷ [])
aggregate_candles-IsAggregated_example =
    aggregate_candles-IsAggregated (λ c. c.symbol ≡ "BTCUSDT") one_reader no_order print_one
      five_candles (five_minute_candle ∷ []) "5m" 300_000_000_000 five_minutes_lem
      (refl, (refl, (refl, (refl, (refl, tt))))) five_candles_aggregated

fifteen_lem : digits (b'1' ∷ b'5' ∷ []) ≡ some 15
unfolding digits
fifteen_lem = refl

-- 9007199254740992, which is 2 ^ 53.
abbrev long_digits : List ℕ
long_digits = codes "007199254740992"

long_lem : digits (b'9' ∷ long_digits) ≡ some 9_007_199_254_740_992
unfolding digits
long_lem = refl

-- An interval of 2 ^ 53 minutes is accepted with the duration 0.
parse_interval-wrap64_example : parse_interval ((b'9' ∷ long_digits) ++ b'm' ∷ []) ≡ ok 0
parse_interval-wrap64_example =
    parse_interval-wrap64 b'9' long_digits b'm' minute 9_007_199_254_740_992 long_lem (omega arith)
      (omega arith) (inl (refl, refl))

abbrev page_cursor : CandleCursor
page_cursor = record {
  version = 1;
  exchange = "binance";
  symbol = "BTCUSDT";
  interval = "1m";
  from = 0;
  to = 3_600_000_000_000;
  limit = 100;
}

-- A coding that knows one cursor.
abbrev is_page_cursor : CandleCursor → Bool
is_page_cursor c =
    c.version == 1
    && (str_eq c.exchange "binance"
        && (str_eq c.symbol "BTCUSDT"
            && (str_eq c.interval "1m"
                && (c.from == 0 && (c.to == 3_600_000_000_000 && c.limit == 100)))))

abbrev one_marshal : CandleCursor → Option String
one_marshal c = if is_page_cursor c then some "x" else none

abbrev one_unmarshal : String → Option CandleCursor
one_unmarshal t = some page_cursor

one_marshal-round :
    (d : CandleCursor) (t : String) → one_marshal d ≡ some t → one_unmarshal t ≡ some d
one_marshal-round d t e = ground (
  arith,
  str_eq_iff d.exchange "binance",
  str_eq_iff d.symbol "BTCUSDT",
  str_eq_iff d.interval "1m",
)

x_blank : blank "x" ≡ false
unfolding blank
x_blank = refl

marshalled : (d : CandleCursor) (t : String) → one_marshal d ≡ some t → "x" ≡ t
marshalled d t e = ground arith

one_marshal-blank : (d : CandleCursor) (t : String) → one_marshal d ≡ some t → blank t ≡ false
one_marshal-blank d t e = rw (sym (marshalled d t e)) x_blank

page_encoded : encode_candle_cursor one_marshal page_cursor ≡ ok "x"
unfolding encode_candle_cursor validate_candle_cursor str_eq normalize_candle_limit
    validate_candle_query_range interval_duration check_range
page_encoded = refl

page_decoded : decode_candle_cursor one_unmarshal "x" ≡ ok page_cursor
unfolding decode_candle_cursor validate_candle_cursor blank str_eq validate_candle_query_range
    interval_duration check_range
page_decoded = refl

decode-encode_candle_cursor_example :
    decode_candle_cursor one_unmarshal "x" ≡ ok (normal_cursor page_cursor)
decode-encode_candle_cursor_example =
    decode-encode_candle_cursor one_marshal one_unmarshal page_cursor "x" one_marshal-round
      one_marshal-blank page_encoded
