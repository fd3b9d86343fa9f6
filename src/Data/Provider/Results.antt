-- ===== src/Data/Provider/Results.antt =====
-- internal/data/candle_provider.go: how a result is put together, and candle_result.go.
use tictick_hi.Base.{
  ℕ, String, Bool, true, false, not, Option, none, some, List, [], ◌∷◌, if◌then◌else◌, Result, ok,
  err, length,
}
use tictick_hi.Base.Rat.{Rat}
use tictick_hi.Data.Model.{
  Candle, CandleQuery, CandleResult, CandleSource, CandleHealth, CandleGap, CandleCoverage,
  CandleWindow, CandlePagination, CandleIssue, CandleError, IssueCode, no_source, healthy, gap,
  insufficient, invalid, out_of_order, duplicate_open_time,
}
use tictick_hi.Data.Query.{normalize_candle_limit}
use tictick_hi.Data.Validation.{
  validate_candle_values, validate_candle_series, detect_candle_time_issue, issue,
}

abbrev pub no_pagination : CandlePagination
no_pagination = record {
  has_previous = false;
  has_next = false;
  previous_from = none;
  previous_to = none;
  next_from = none;
  next_to = none;
  previous_cursor = "";
  next_cursor = "";
}

abbrev pub no_window : CandleWindow
no_window = record { from = none; to = none; count = 0 }

abbrev pub last_candle : Candle → List Candle → Candle
last_candle c [] = c
last_candle c (x ∷ xs) = last_candle x xs

unfoldable pub candle_window : List Candle → CandleWindow
candle_window [] = no_window
candle_window (c ∷ cs) = record {
  from = some c.open_time;
  to = some (last_candle c cs).open_time;
  count = length (c ∷ cs);
}

unfoldable pub candle_health : List Candle → List CandleGap → CandleHealth
candle_health cs (g ∷ gs) = gap
candle_health [] [] = insufficient
candle_health (c ∷ cs) [] = healthy

abbrev pub is_empty {ℓ} : {A : Type ℓ} → List A → Bool
is_empty [] = true
is_empty (x ∷ xs) = false

abbrev pub coverage : ℕ → ℕ → CandleCoverage
coverage limit returned = record {
  requested_limit = normalize_candle_limit limit;
  returned_candles = returned;
  required_base_candles = 0;
  base_limit = 0;
  returned_base_candles = 0;
  limited_by_base_window = false;
}

unfoldable pub candle_result :
    CandleQuery → List Candle → CandleSource → String → List CandleGap → CandleResult
unfolding candle_window candle_health
candle_result q cs source base_interval gaps = record {
  candles = cs;
  source = if is_empty cs then no_source else source;
  requested_interval = q.interval;
  base_interval = if is_empty cs then "" else base_interval;
  health = candle_health cs gaps;
  gaps = gaps;
  issues = [];
  coverage = coverage q.limit (length cs);
  window = candle_window cs;
  pagination = no_pagination;
}

-- `errors.As(err, &seriesErr)`: the errors that carry an open time of the series.
abbrev pub series_time : CandleError → Option ℕ
series_time (out_of_order t) = some t
series_time (duplicate_open_time t) = some t
series_time _ = none

module _ (set_string : String → Option Rat) where
  -- The first loop: a candle whose values are refused.
  pub first_value_issue : IssueCode → List Candle → Option CandleIssue
  first_value_issue code [] = none
  first_value_issue code (c ∷ cs) =
      let rest = first_value_issue code cs in
      elim (validate_candle_values set_string c) [ err e ↦ some (issue c code e) | ok u ↦ rest ]

  -- The second loop: a candle that is refused as a series of its own.
  pub first_single_issue : IssueCode → String → List Candle → Option CandleIssue
  first_single_issue code interval [] = none
  first_single_issue code interval (c ∷ cs) =
      let rest = first_single_issue code interval cs in
      elim (validate_candle_series set_string (c ∷ []) interval) [
        | err e ↦ elim (detect_candle_time_issue c interval) [
          | some i ↦ some i
          | none ↦ some (issue c code e)
        ]
        | ok u ↦ rest
      ]

  unfoldable pub first_candle_issue : List Candle → String → IssueCode → CandleError → CandleIssue
  unfolding first_value_issue first_single_issue
  first_candle_issue cs interval code e = elim (first_value_issue code cs) [
    | some i ↦ i
    | none ↦ elim (first_single_issue code interval cs) [
      | some i ↦ i
      | none ↦ record { code = code; message = e; open_time = series_time e }
    ]
  ]

  unfoldable pub invalid_candle_result :
      CandleQuery
      → CandleSource
      → String
      → List Candle
      → String
      → IssueCode
      → CandleError
      → CandleResult
  unfolding first_candle_issue
  invalid_candle_result q source base_interval cs interval code e = record {
    candles = [];
    source = source;
    requested_interval = q.interval;
    base_interval = base_interval;
    health = invalid;
    gaps = [];
    issues = first_candle_issue cs interval code e ∷ [];
    coverage = coverage q.limit 0;
    window = no_window;
    pagination = no_pagination;
  }

pub data StrategyRefusal : Type 0 where
  unhealthy : CandleHealth → StrategyRefusal
  limited_coverage : StrategyRefusal

abbrev pub is_healthy : CandleHealth → Bool
is_healthy healthy = true
is_healthy _ = false

unfoldable pub validate_strategy_candle_result : CandleResult → Result StrategyRefusal (Unit {0})
validate_strategy_candle_result r =
    if not (is_healthy r.health)
    then err (unhealthy r.health)
    else (if r.coverage.limited_by_base_window then err limited_coverage else ok tt)
