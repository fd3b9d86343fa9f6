-- ===== src/Data/Provider/Serving.antt =====
-- internal/data/candle_provider.go, `GetCandles` and its pagination.
pub mod Answers
pub mod Ranges
use tictick_hi.Base.{
  ℕ, ◌+◌, ◌-◌, ◌*◌, String, Bool, true, false, not, ◌&&◌, ◌||◌, Option, none, some, List, [], ◌∷◌,
  ltb, leb, ◌==◌, if◌then◌else◌, Result, ok, err, ◌>>=◌, ◌>>◌, map_err, length, str_eq,
}
use tictick_hi.Base.Rat.{Rat}
use tictick_hi.Data.Interval.{IntervalError, interval_duration, minute, base_candle_interval}
use tictick_hi.Data.Model.{
  Candle, CandleError, CandleQuery, CandleResult, CandleSource, CandleGap, CandlePagination, native,
  aggregated, no_source, gap, insufficient, invalid_native_series, invalid_aggregation_base_series,
}
use tictick_hi.Data.Query.{
  QueryError, normalize_candle_limit, validate_candle_query_target, validate_candle_query_range,
}
use tictick_hi.Data.Validation.{validate_candle_series}
use tictick_hi.Data.Gaps.{detect_candle_gaps_in_range}
use tictick_hi.Data.Cursor.{CandleCursor, CursorError, new_candle_cursor, encode_candle_cursor}
use tictick_hi.Data.Provider.Results.{
  last_candle, is_empty, no_pagination, candle_result, invalid_candle_result,
}
use tictick_hi.Data.Provider.BaseWindow.{AggregationBaseWindow, new_aggregation_base_query}
use tictick_hi.Data.Provider.Trimming.{filter_candles_in_range, trim_aggregated_candles}
use tictick_hi.Data.Provider.Aggregation.{
  Store, StoreError, AggregationBuildResult, aggregate_base_candles,
}

pub data ProviderError : Type 0 where
  bad_query : QueryError → ProviderError
  store_error : StoreError → ProviderError
  interval_refused : IntervalError → ProviderError
  cursor_refused : CursorError → ProviderError
  -- The fuel of an aggregation ran out; it never does.
  out_of_fuel : ProviderError

abbrev pub total :
    Option (Result StoreError AggregationBuildResult) → Result ProviderError AggregationBuildResult
total none = err out_of_fuel
total (some r) = map_err store_error r

abbrev pub when_token : Bool → Result CursorError String → Result ProviderError String
when_token true r = map_err cursor_refused r
when_token false r = ok ""

abbrev pub when_there : Bool → ℕ → Option ℕ
when_there b t = if b then some t else none

abbrev pub is_aggregated : CandleSource → Bool
is_aggregated aggregated = true
is_aggregated _ = false

module _ (marshal : CandleCursor → Option String) (list_native : Store) where
  pub has_native_candle : CandleQuery → String → Option ℕ → Option ℕ → Result ProviderError Bool
  has_native_candle q interval from to = do
    cs ←
        map_err store_error
          (list_native (record q { interval = interval; from = from; to = to; limit = 1 }))
    ok (not (is_empty cs))

  -- The pages before and after the candles from `first` to `last`. A subtraction stops at the
  -- epoch.
  pub pages_around : CandleQuery → ℕ → Bool → ℕ → ℕ → Result ProviderError CandlePagination
  unfolding has_native_candle
  pages_around q duration from_base first last = do
    let span = (normalize_candle_limit q.limit - 1) * duration
    let previous_to = first - duration
    let previous_from = previous_to - span
    let next_from = last + duration
    let next_to = next_from + span
    let probe_interval = if from_base then base_candle_interval else q.interval
    let probe_to = if from_base then first - minute else previous_to
    has_previous ← has_native_candle q probe_interval none (some probe_to)
    has_next ← has_native_candle q probe_interval (some next_from) none
    previous_cursor ← when_token has_previous (
        encode_candle_cursor marshal
          (new_candle_cursor q previous_from previous_to (normalize_candle_limit q.limit)))
    next_cursor ← when_token has_next (
        encode_candle_cursor marshal
          (new_candle_cursor q next_from next_to (normalize_candle_limit q.limit)))
    ok (record {
      has_previous = has_previous;
      has_next = has_next;
      previous_from = when_there has_previous previous_from;
      previous_to = when_there has_previous previous_to;
      next_from = when_there has_next next_from;
      next_to = when_there has_next next_to;
      previous_cursor = previous_cursor;
      next_cursor = next_cursor;
    })

  pub paginate : CandleQuery → CandleSource → List Candle → Result ProviderError CandlePagination
  unfolding pages_around
  paginate q from [] = ok no_pagination
  paginate q from (c ∷ cs) = do
    duration ← map_err interval_refused (interval_duration q.interval)
    pages_around q duration (is_aggregated from) c.open_time (last_candle c cs).open_time

  unfoldable pub with_pagination : CandleQuery → CandleResult → Result ProviderError CandleResult
  unfolding paginate
  with_pagination q r = do
    pagination ← paginate q r.source r.candles
    ok (record r { pagination = pagination })

abbrev pub limited_by : AggregationBaseWindow → ℕ → Bool
limited_by w returned = w.limited && leb w.limit returned

abbrev pub with_base : AggregationBaseWindow → ℕ → CandleResult → CandleResult
with_base w returned r = record r {
  coverage = record r.coverage {
    required_base_candles = w.required;
    base_limit = w.limit;
    returned_base_candles = returned;
    limited_by_base_window = limited_by w returned;
  };
}

-- The result from aggregated candles, with the three corrections that follow it.
unfoldable pub aggregated_result :
    CandleQuery → AggregationBaseWindow → AggregationBuildResult → CandleResult
unfolding candle_result
aggregated_result q w a =
    let cs = trim_aggregated_candles (filter_candles_in_range a.candles q.from q.to) q in
    let plain =
      with_base w a.returned_base_candles
        (candle_result q cs aggregated base_candle_interval a.gaps) in
    let limited = record plain {
      health =
          if limited_by w a.returned_base_candles
            && ltb (length cs) (normalize_candle_limit q.limit)
          then insufficient
          else plain.health;
      source = if a.returned_base_candles == 0 then no_source else plain.source;
      base_interval = if a.returned_base_candles == 0 then "" else plain.base_interval;
    } in
    record limited { health = if is_empty cs && not (is_empty a.gaps) then gap else limited.health }

module _ (set_string : String → Option Rat) (text_lt : String → String → Bool)
    (format_decimal : Rat → String) (marshal : CandleCursor → Option String) (list_native : Store)
    (list_latest : Store) where
  -- Once the base candles have been read.
  pub serve_aggregated :
      CandleQuery
      → List Candle
      → List CandleGap
      → AggregationBaseWindow
      → AggregationBuildResult
      → Result ProviderError CandleResult
  unfolding aggregated_result
  serve_aggregated q native_candles native_gaps w a = elim a.invalid_err [
    | some e ↦ ok (
        with_base w a.returned_base_candles (
          invalid_candle_result set_string q aggregated base_candle_interval a.invalid_candles
            base_candle_interval invalid_aggregation_base_series e))
    | none ↦
        if a.returned_base_candles == 0 && not (is_empty native_candles)
        then with_pagination marshal list_native q
            (candle_result q native_candles native q.interval native_gaps)
        else with_pagination marshal list_native q (aggregated_result q w a)
  ]

  -- The native candles do not answer the query: the base candles are read.
  pub serve_from_base :
      CandleQuery → List Candle → List CandleGap → Result ProviderError CandleResult
  unfolding serve_aggregated
  serve_from_base q native_candles native_gaps = do
    (base_query, window) ← map_err interval_refused (new_aggregation_base_query q)
    a ← total (
        aggregate_base_candles set_string text_lt format_decimal list_native list_latest base_query
          window q.interval)
    serve_aggregated q native_candles native_gaps window a

  -- Once the native candles have been read and found valid.
  pub serve_valid : CandleQuery → List Candle → List CandleGap → Result ProviderError CandleResult
  unfolding serve_from_base
  serve_valid q native_candles native_gaps =
      if str_eq q.interval base_candle_interval
        || (not (is_empty native_candles) && is_empty native_gaps)
      then with_pagination marshal list_native q
          (candle_result q native_candles native q.interval native_gaps)
      else serve_from_base q native_candles native_gaps

  pub serve_native :
      CandleQuery → List Candle → Result CandleError (Unit {0}) → Result ProviderError CandleResult
  unfolding serve_valid
  serve_native q native_candles (err e) = ok (
      invalid_candle_result set_string q native q.interval native_candles q.interval
        invalid_native_series e)
  serve_native q native_candles (ok u) = do
    native_gaps ←
        map_err interval_refused (detect_candle_gaps_in_range native_candles q.interval q.from q.to)
    serve_valid q native_candles native_gaps

  unfoldable pub get_candles : CandleQuery → Result ProviderError CandleResult
  unfolding serve_native
  get_candles q = do
    map_err bad_query (validate_candle_query_target q)
    map_err bad_query (validate_candle_query_range q)
    native_candles ← map_err store_error (list_native q)
    serve_native q native_candles (validate_candle_series set_string native_candles q.interval)
