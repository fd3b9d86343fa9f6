-- ===== src/Data/Provider/BaseWindow.antt =====
-- internal/data/candle_provider_aggregation.go: how many base candles a query needs, and from where.
use tictick_hi.Base.{
  ℕ, ◌+◌, ◌-◌, ◌*◌, ◌/◌, String, Bool, true, false, Option, none, some, ltb, if◌then◌else◌, Result,
  ok, err, ◌>>=◌,
}
use tictick_hi.Data.Interval.{
  IntervalError, interval_duration, align_time, minute, base_candle_interval,
}
use tictick_hi.Data.Model.{CandleQuery}
use tictick_hi.Data.Query.{normalize_candle_limit, max_candle_limit}
use tictick_hi.Data.Gaps.{first_expected_open}

abbrev pub max_aggregation_base_pages : ℕ
max_aggregation_base_pages = 288

pub record AggregationBaseWindow : Type 0 where
  pub required : ℕ
  pub limit : ℕ
  pub limited : Bool

abbrev pub at_least_one : ℕ → ℕ
at_least_one n = if ltb n 1 then 1 else n

unfoldable pub base_window_of : ℕ → ℕ → AggregationBaseWindow
base_window_of limit duration =
    let required = normalize_candle_limit limit * at_least_one (duration / minute) in
    let most = max_candle_limit * max_aggregation_base_pages in
    if ltb most required
    then record { required = required; limit = most; limited = true }
    else record { required = required; limit = required; limited = false }

unfoldable pub base_window_for_aggregation : String → ℕ → AggregationBaseWindow
unfolding base_window_of
base_window_for_aggregation interval limit = elim (interval_duration interval) [
  | err e ↦ record { required = limit; limit = limit; limited = false }
  | ok duration ↦ base_window_of limit duration
]

abbrev pub map_time : (ℕ → ℕ) → Option ℕ → Option ℕ
map_time f none = none
map_time f (some t) = some (f t)

-- The last base candle of the target window that holds `to`.
abbrev pub last_base_open : ℕ → ℕ → ℕ → ℕ
last_base_open target base to = align_time to target + (target - base)

unfoldable pub new_aggregation_base_query :
    CandleQuery → Result IntervalError (CandleQuery × AggregationBaseWindow)
unfolding base_window_for_aggregation
new_aggregation_base_query q = do
  target ← interval_duration q.interval
  base ← interval_duration base_candle_interval
  let window = base_window_for_aggregation q.interval q.limit
  ok (
    record q {
      interval = base_candle_interval;
      from = map_time (λ t. first_expected_open t target) q.from;
      to = map_time (last_base_open target base) q.to;
      limit = window.limit;
    },
    window,
  )

unfoldable pub aggregation_page_limit : ℕ → ℕ
aggregation_page_limit remaining =
    if ltb max_candle_limit remaining then max_candle_limit else remaining
