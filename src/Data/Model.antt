-- ===== src/Data/Model.antt =====
-- internal/data/model.go: candles, queries and results. Prices are texts, as in the source;
-- an instant is a number of nanoseconds since the Unix epoch (earlier instants are left out).
use tictick_hi.Base.{ℕ, String, Bool, Option, List}
use tictick_hi.Data.Interval.{IntervalError}

pub record Candle : Type 0 where
  pub exchange : String
  pub symbol : String
  pub interval : String
  pub open_time : ℕ
  pub close_time : ℕ
  pub open_price : String
  pub high : String
  pub low : String
  pub close : String
  pub volume : String
  pub is_closed : Bool

-- The codes of data_sync_model.go, and the two that the provider uses for a whole series.
pub data IssueCode : Type 0 where
  invalid_open_price invalid_high_price invalid_low_price invalid_close_price : IssueCode
  invalid_volume invalid_high_bound invalid_low_bound : IssueCode
  invalid_open_time invalid_close_time : IssueCode
  invalid_native_series invalid_aggregation_base_series : IssueCode

pub data Field : Type 0 where
  open_field high_field low_field close_field volume_field : Field

-- One constructor for each message that the validation can give.
pub data CandleError : Type 0 where
  not_a_decimal : Field → CandleError
  not_positive : Field → CandleError
  negative_volume high_below_bounds low_above_bounds : CandleError
  interval_error : IntervalError → CandleError
  unaligned_open_time wrong_close_time target_mismatch : CandleError
  -- `candleSeriesIssueError` carries the open time of the candle.
  out_of_order duplicate_open_time : ℕ → CandleError

pub record CandleIssue : Type 0 where
  pub code : IssueCode
  pub message : CandleError
  pub open_time : Option ℕ

pub record CandleQuery : Type 0 where
  pub exchange : String
  pub symbol : String
  pub interval : String
  pub from : Option ℕ
  pub to : Option ℕ
  pub limit : ℕ

pub data CandleSource : Type 0 where
  native aggregated no_source : CandleSource

pub data CandleHealth : Type 0 where
  healthy gap insufficient invalid : CandleHealth

pub record CandleGap : Type 0 where
  pub from : ℕ
  pub to : ℕ
  pub missing_candles : ℕ

pub record CandleCoverage : Type 0 where
  pub requested_limit : ℕ
  pub returned_candles : ℕ
  pub required_base_candles : ℕ
  pub base_limit : ℕ
  pub returned_base_candles : ℕ
  pub limited_by_base_window : Bool

pub record CandleWindow : Type 0 where
  pub from : Option ℕ
  pub to : Option ℕ
  pub count : ℕ

pub record CandlePagination : Type 0 where
  pub has_previous : Bool
  pub has_next : Bool
  pub previous_from : Option ℕ
  pub previous_to : Option ℕ
  pub next_from : Option ℕ
  pub next_to : Option ℕ
  pub previous_cursor : String
  pub next_cursor : String

pub record CandleResult : Type 0 where
  pub candles : List Candle
  pub source : CandleSource
  pub requested_interval : String
  pub base_interval : String
  pub health : CandleHealth
  pub gaps : List CandleGap
  pub issues : List CandleIssue
  pub coverage : CandleCoverage
  pub window : CandleWindow
  pub pagination : CandlePagination
