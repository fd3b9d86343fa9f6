-- ===== src/Data/Provider/Aggregation.antt =====
-- internal/data/candle_provider_aggregation.go: the base candles that a longer interval needs, read
-- page by page. The store is the environment's.
pub mod Pages
use tictick_hi.Base.{
  ℕ, zero, suc, ◌+◌, ◌-◌, ◌*◌, ◌/◌, String, Bool, true, false, not, ◌&&◌, ◌||◌, Option, none, some,
  List, [], ◌∷◌, ltb, leb, ◌==◌, if◌then◌else◌, Result, ok, err, ◌>>=◌, ◌>>◌, refuse_if, map_err,
  length, drop, take,
}
use tictick_hi.Base.Rat.{Rat}
use tictick_hi.Data.Interval.{
  IntervalError, interval_duration, align_time, minute, base_candle_interval,
}
use tictick_hi.Data.Model.{
  Candle, CandleQuery, CandleGap, CandleError, out_of_order, duplicate_open_time, interval_error,
  not_a_decimal, volume_field,
}
use tictick_hi.Data.Query.{normalize_candle_limit, max_candle_limit}
use tictick_hi.Data.Validation.{validate_candle_series}
use tictick_hi.Data.Gaps.{
  first_expected_open, GapTracker, new_candle_gap_tracker, add_candle, finish,
}
use tictick_hi.Data.Aggregate.{Aggregator, AggregateError, new_aggregator, add, flush}
use tictick_hi.Data.Provider.Results.{last_candle, is_empty}
use tictick_hi.Data.Provider.BaseWindow.{AggregationBaseWindow, aggregation_page_limit}

abbrev pub after_previous : Option ℕ → ℕ → Result CandleError (Unit {0})
after_previous none t = ok tt
after_previous (some p) t = do
  refuse_if (ltb t p) (out_of_order t)
  refuse_if (t == p) (duplicate_open_time t)

abbrev pub first_after : Option ℕ → List Candle → Result CandleError (Unit {0})
first_after previous [] = ok tt
first_after previous (c ∷ cs) = after_previous previous c.open_time

-- The errors that reading the store can give.
pub data StoreError : Type 0 where
  store_failed : StoreError
  store_interval : IntervalError → StoreError

abbrev pub Store : Type 0
Store = CandleQuery → Result StoreError (List Candle)

pub record AggregationBuildResult : Type 0 where
  pub candles : List Candle
  pub gaps : List CandleGap
  pub returned_base_candles : ℕ
  pub invalid_candles : List Candle
  pub invalid_err : Option CandleError

abbrev pub no_aggregation : AggregationBuildResult
no_aggregation = record {
  candles = [];
  gaps = [];
  returned_base_candles = 0;
  invalid_candles = [];
  invalid_err = none;
}

-- `!nextFrom.After(from) || query.To != nil && nextFrom.After(to)`
abbrev pub past_end : Option ℕ → ℕ → ℕ → Bool
past_end none from next_from = not (ltb from next_from)
past_end (some to) from next_from = not (ltb from next_from) || ltb to next_from

-- The state of the forward loop.
pub record Forward : Type 0 where
  pub from : ℕ
  pub previous_open : Option ℕ
  pub returned : ℕ
  pub tracker : GapTracker
  pub aggregator : Aggregator

abbrev pub track_all : GapTracker → List Candle → GapTracker
track_all t [] = t
track_all t (c ∷ cs) = track_all (add_candle t c) cs

-- What one page makes of the loop: it stops with a result, or goes on.
pub data Paged : Type 0 where
  stop : AggregationBuildResult → Paged
  continue_with : Forward → Paged

module _ (set_string : String → Option Rat) (text_lt : String → String → Bool)
    (format_decimal : Rat → String) where
  unfoldable pub validate_aggregation_base_page :
      List Candle → Option ℕ → Result CandleError (Unit {0})
  validate_aggregation_base_page page previous = do
    validate_candle_series set_string page base_candle_interval
    first_after previous page

  pub finished : Forward → AggregationBuildResult
  finished s = record {
    candles = (flush s.aggregator).result;
    gaps = finish s.tracker;
    returned_base_candles = s.returned;
    invalid_candles = [];
    invalid_err = none;
  }

  pub refused_page : Forward → List Candle → CandleError → AggregationBuildResult
  refused_page s page e = record {
    candles = [];
    gaps = [];
    returned_base_candles = s.returned;
    invalid_candles = page;
    invalid_err = some e;
  }

  -- The inner loop over a page.
  pub aggregate_page : Aggregator → List Candle → Result AggregateError Aggregator
  aggregate_page a [] = ok a
  aggregate_page a (c ∷ cs) =
      add set_string text_lt format_decimal a c >>= λ a'. aggregate_page a' cs

  pub next_state : Forward → List Candle → ℕ → Aggregator → Forward
  next_state s page last_open a = record {
    from = last_open + minute;
    previous_open = some last_open;
    returned = s.returned + length page;
    tracker = track_all s.tracker page;
    aggregator = a;
  }

  -- The body of the loop from the page on.
  pub take_page : CandleQuery → ℕ → Forward → List Candle → Paged
  unfolding finished refused_page aggregate_page next_state
  take_page q page_limit s [] = stop (finished s)
  take_page q page_limit s (c ∷ cs) =
      elim (validate_aggregation_base_page (c ∷ cs) s.previous_open) [
        | err e ↦ stop (refused_page s (c ∷ cs) e)
        | ok u ↦ elim (aggregate_page s.aggregator (c ∷ cs)) [
          | err e ↦ stop (refused_page s (c ∷ cs) (not_a_decimal volume_field))
          | ok a ↦
              let last_open = (last_candle c cs).open_time in
              let s' = next_state s (c ∷ cs) last_open a in
              if ltb (length (c ∷ cs)) page_limit || past_end q.to s.from s'.from
              then stop (finished s')
              else continue_with s'
        ]
      ]

  -- Fuel bounds the pages; `none` means that it ran out.
  pub forward_loop :
      Store → CandleQuery → ℕ → ℕ → Forward → Option (Result StoreError AggregationBuildResult)
  unfolding take_page
  forward_loop list_native q limit zero s = none
  forward_loop list_native q limit (suc fuel) s =
      if not (ltb s.returned limit)
      then some (ok (finished s))
      else (elim (list_native
          (record q { from = some s.from; limit = aggregation_page_limit (limit - s.returned) })) [
            | err e ↦ some (err e)
            | ok page ↦ elim (take_page q (aggregation_page_limit (limit - s.returned)) s page) [
              | stop r ↦ some (ok r)
              | continue_with s' ↦ forward_loop list_native q limit fuel s'
            ]
          ])

  abbrev pub duration_or_zero : Result IntervalError ℕ → ℕ
  duration_or_zero (ok d) = d
  duration_or_zero (err e) = 0

  pub first_state : CandleQuery → ℕ → String → Forward
  first_state q from target_interval = record {
    from = from;
    previous_open = none;
    returned = 0;
    tracker =
        new_candle_gap_tracker (duration_or_zero (interval_duration base_candle_interval)) q.from
          q.to;
    aggregator =
        new_aggregator target_interval (duration_or_zero (interval_duration target_interval))
          (duration_or_zero (interval_duration base_candle_interval));
  }

  -- Every page but the last brings a candle, so `limit + 1` rounds are enough.
  pub forward_from :
      Store
      → CandleQuery
      → ℕ
      → String
      → Option ℕ
      → Option (Result StoreError AggregationBuildResult)
  unfolding forward_loop first_state
  forward_from list_native q limit target_interval none = some (ok no_aggregation)
  forward_from list_native q limit target_interval (some from) =
      forward_loop list_native q limit (suc limit) (first_state q from target_interval)

  unfoldable pub aggregate_forward_base_candles :
      Store → CandleQuery → ℕ → String → Option (Result StoreError AggregationBuildResult)
  unfolding forward_from
  aggregate_forward_base_candles list_native q limit target_interval =
      forward_from list_native q limit target_interval q.from

-- The backward loop that looks for the first of the latest candles.
pub record Backward : Type 0 where
  pub to : Option ℕ
  pub returned : ℕ
  pub earliest_open : Option ℕ
  pub latest_open : Option ℕ

abbrev pub or_first : Option ℕ → Option ℕ → Option ℕ
or_first none new = new
or_first (some old) new = some old

unfoldable pub step_back : Backward → Candle → List Candle → Backward
step_back s c cs = record {
  to = some (c.open_time - minute);
  returned = s.returned + length (c ∷ cs);
  earliest_open = some c.open_time;
  latest_open = or_first s.latest_open (some (last_candle c cs).open_time);
}

unfoldable pub backward_loop :
    Store → CandleQuery → ℕ → ℕ → Backward → Option (Result StoreError Backward)
unfolding step_back
backward_loop list_latest q limit zero s = none
backward_loop list_latest q limit (suc fuel) s =
    if not (ltb s.returned limit)
    then some (ok s)
    else (elim (list_latest
        (record q { to = s.to; limit = aggregation_page_limit (limit - s.returned) })) [
          | err e ↦ some (err e)
          | ok [] ↦ some (ok s)
          | ok (c ∷ cs) ↦
              let rest = backward_loop list_latest q limit fuel (step_back s c cs) in
              if ltb (length (c ∷ cs)) (aggregation_page_limit (limit - s.returned))
              then some (ok (step_back s c cs))
              else rest
        ])

abbrev pub stream_query : CandleQuery → ℕ → Backward → CandleQuery
stream_query q limit s = record q {
  from = s.earliest_open;
  to = or_first q.to s.latest_open;
  limit = limit;
}

unfoldable pub latest_aggregation_stream_query :
    Store → CandleQuery → ℕ → Option (Result StoreError CandleQuery)
unfolding backward_loop
latest_aggregation_stream_query list_latest q limit =
    elim (backward_loop list_latest q limit (suc limit)
      (record { to = q.to; returned = 0; earliest_open = none; latest_open = none })) [
        | none ↦ none
        | some (err e) ↦ some (err e)
        | some (ok s) ↦ some (ok (stream_query q limit s))
      ]

module _ (set_string : String → Option Rat) (text_lt : String → String → Bool)
    (format_decimal : Rat → String) where
  -- From the stream query on: with no start there is nothing to aggregate.
  pub stream_from :
      Store
      → ℕ
      → String
      → CandleQuery
      → Option ℕ
      → Option (Result StoreError AggregationBuildResult)
  unfolding aggregate_forward_base_candles
  stream_from list_native limit target_interval stream none = some (ok no_aggregation)
  stream_from list_native limit target_interval stream (some from) =
      aggregate_forward_base_candles set_string text_lt format_decimal list_native stream limit
        target_interval

  pub aggregate_latest :
      Store
      → ℕ
      → String
      → Option (Result StoreError CandleQuery)
      → Option (Result StoreError AggregationBuildResult)
  unfolding stream_from
  aggregate_latest list_native limit target_interval none = none
  aggregate_latest list_native limit target_interval (some (err e)) = some (err e)
  aggregate_latest list_native limit target_interval (some (ok stream)) =
      stream_from list_native limit target_interval stream stream.from

  pub base_candles_from :
      Store
      → Store
      → CandleQuery
      → ℕ
      → String
      → Option ℕ
      → Option (Result StoreError AggregationBuildResult)
  unfolding aggregate_latest latest_aggregation_stream_query
  base_candles_from list_native list_latest q limit target_interval none =
      aggregate_latest list_native limit target_interval
        (latest_aggregation_stream_query list_latest q limit)
  base_candles_from list_native list_latest q limit target_interval (some from) =
      aggregate_forward_base_candles set_string text_lt format_decimal list_native q limit
        target_interval

  unfoldable pub aggregate_base_candles :
      Store
      → Store
      → CandleQuery
      → AggregationBaseWindow
      → String
      → Option (Result StoreError AggregationBuildResult)
  unfolding base_candles_from
  aggregate_base_candles list_native list_latest q window target_interval =
      if leb window.limit 0
      then some (ok no_aggregation)
      else base_candles_from list_native list_latest q window.limit target_interval q.from
