-- ===== src/Scenarios/Serving.antt =====
-- Answers of the provider over small stores: internal/data/candle_provider.go.
use tictick_hi.Base.{
  ℕ, ◌+◌, ◌≤◌, ◌⊎◌, length, ◌≡◌, refl, String, Bool, true, false, Option, none, some, List, [], ◌∷◌,
  Result, ok, str_eq,
}
use tictick_hi.Base.Int.{pos}
use tictick_hi.Base.Rat.{Rat, rat, lt_rat, le_rat, zero_rat}
use tictick_hi.Data.Interval.{interval_duration, minute, align_time}
use tictick_hi.Data.Model.{Candle, CandleQuery, CandleResult, native, healthy}
use tictick_hi.Data.Query.{
  validate_candle_query_target, validate_candle_query_range, check_range, normalize_candle_limit,
}
use tictick_hi.Data.Validation.{validate_candle_series}
use tictick_hi.Data.Gaps.{first_expected_open, detect_candle_gaps_in_range}
use tictick_hi.Data.Cursor.{CandleCursor}
use tictick_hi.Data.Provider.Results.{is_empty, candle_result, no_pagination}
use tictick_hi.Data.Provider.BaseWindow.{AggregationBaseWindow}
use tictick_hi.Data.Provider.Aggregation.{
  Store, StoreError, AggregationBuildResult, aggregate_base_candles, no_aggregation,
}
use tictick_hi.Data.Provider.Aggregation.Pages.{aggregate_base_candles_total}
use tictick_hi.Data.Provider.Serving.{with_pagination, get_candles}
use tictick_hi.Data.Provider.Serving.Answers.{
  get_candles_healthy, validate_strategy_candle_result-get_candles,
}
use tictick_hi.Data.Provider.Results.{validate_strategy_candle_result}

abbrev unit_reader : String → Option Rat
unit_reader text = some (rat (pos 1) 0)

abbrev never_less : String → String → Bool
never_less left right = false

abbrev unit_text : Rat → String
unit_text r = "1"

abbrev no_tokens : CandleCursor → Option String
no_tokens c = none

abbrev minute_candle : ℕ → Candle
minute_candle t = record {
  exchange = "binance";
  symbol = "BTCUSDT";
  interval = "1m";
  open_time = t;
  close_time = t + minute;
  open_price = "1";
  high = "1";
  low = "1";
  close = "1";
  volume = "1";
  is_closed = true;
}

-- A store of one candle, the first minute: an end before it or a start after it finds nothing.
abbrev found_in : Option ℕ → Option ℕ → List Candle
found_in none none = minute_candle 60_000_000_000 ∷ []
found_in (some from) none = []
found_in none (some to) = []
found_in (some from) (some to) = minute_candle 60_000_000_000 ∷ []

abbrev one_candle_store : Store
one_candle_store q = ok (found_in q.from q.to)

abbrev first_minute : CandleQuery
first_minute = record {
  exchange = "binance";
  symbol = "BTCUSDT";
  interval = "1m";
  from = some 60_000_000_000;
  to = some 60_000_000_000;
  limit = 10;
}

abbrev first_answer : CandleResult
first_answer =
    record (candle_result first_minute (minute_candle 60_000_000_000 ∷ []) native "1m" []) {
      pagination = no_pagination;
    }

first_answered :
    get_candles unit_reader never_less unit_text no_tokens one_candle_store one_candle_store
      first_minute
    ≡ ok first_answer
unfolding get_candles with_pagination candle_result validate_candle_query_target
    validate_candle_query_range check_range interval_duration validate_candle_series le_rat zero_rat
    lt_rat align_time detect_candle_gaps_in_range first_expected_open str_eq
first_answered = refl

healthy_lem : first_answer.health ≡ healthy
unfolding candle_result
healthy_lem = refl

get_candles_healthy_example :
    (is_empty first_answer.candles ≡ false)
    × (first_answer.gaps ≡ [])
    × (first_answer.issues ≡ [])
    × ((first_answer.coverage.limited_by_base_window ≡ false)
        ⊎ (normalize_candle_limit first_minute.limit ≤ length first_answer.candles))
get_candles_healthy_example =
    get_candles_healthy unit_reader never_less unit_text no_tokens one_candle_store one_candle_store
      first_minute first_answer first_answered healthy_lem

first_validated : validate_strategy_candle_result first_answer ≡ ok tt
unfolding validate_strategy_candle_result candle_result
first_validated = refl

validate_strategy_candle_result-get_candles_example :
    (is_empty first_answer.candles ≡ false)
    × (first_answer.gaps ≡ [])
    × (first_answer.issues ≡ [])
    × (first_answer.coverage.limited_by_base_window ≡ false)
validate_strategy_candle_result-get_candles_example =
    validate_strategy_candle_result-get_candles unit_reader never_less unit_text no_tokens
      one_candle_store one_candle_store first_minute first_answer first_answered first_validated

abbrev five_window : AggregationBaseWindow
five_window = record { required = 10; limit = 10; limited = false }

aggregate_base_candles_total_example :
    (r : Result StoreError AggregationBuildResult) × (aggregate_base_candles unit_reader never_less
        unit_text one_candle_store one_candle_store first_minute five_window "5m"
      ≡ some r)
aggregate_base_candles_total_example =
    aggregate_base_candles_total unit_reader never_less unit_text one_candle_store one_candle_store
      first_minute five_window "5m"

-- Two candles, one of them outside the range.
abbrev two_built : AggregationBuildResult
two_built = record no_aggregation {
  candles = minute_candle 0 ∷ minute_candle 60_000_000_000 ∷ [];
  returned_base_candles = 10;
}
