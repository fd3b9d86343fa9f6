-- ===== src/Data/Aggregate.antt =====
-- internal/data/aggregate.go: candles of one minute are put together into longer ones.
pub mod Windows
pub mod Adding
pub mod Covering
use tictick_hi.Base.{
  ℕ, suc, ◌+◌, ◌-◌, ◌*◌, ◌/◌, ◌%◌, String, Bool, true, false, not, ◌&&◌, ◌||◌, Option, none, some,
  List, [], ◌∷◌, ◌++◌, ltb, leb, ◌==◌, if◌then◌else◌, Result, ok, err, ◌>>=◌, ◌>>◌, refuse_if,
  map_err,
}
use tictick_hi.Base.Rat.{Rat, lt_rat, add_rat}
use tictick_hi.Data.Interval.{
  IntervalError, interval_duration, align_time, minute, base_candle_interval,
}
use tictick_hi.Data.Model.{Candle}
use tictick_hi.Data.Gaps.{sorted_candles}

pub data AggregateError : Type 0 where
  invalid_decimal not_aggregatable : AggregateError
  aggregate_interval : IntervalError → AggregateError

pub record AggregateWindow : Type 0 where
  pub candle : Candle
  pub count : ℕ
  pub volume : Rat
  pub last_open_time : ℕ
  pub has_gap : Bool
  pub all_closed : Bool

pub record Aggregator : Type 0 where
  pub target_interval : String
  pub target_duration : ℕ
  pub base_duration : ℕ
  pub expected_count : ℕ
  pub current : Option AggregateWindow
  pub result : List Candle

unfoldable pub new_aggregator : String → ℕ → ℕ → Aggregator
new_aggregator target_interval target_duration base_duration = record {
  target_interval = target_interval;
  target_duration = target_duration;
  base_duration = base_duration;
  expected_count = target_duration / base_duration;
  current = none;
  result = [];
}

-- What `flush` appends to the result: nothing for a window with a gap.
unfoldable pub flushed : ℕ → Option AggregateWindow → List Candle
flushed expected none = []
flushed expected (some w) =
    if not w.has_gap
    then record w.candle { is_closed = w.count == expected && w.all_closed } ∷ []
    else []

unfoldable pub flush : Aggregator → Aggregator
unfolding flushed
flush a = record a { current = none; result = a.result ++ flushed a.expected_count a.current }

abbrev pub parsed_volume : Option Rat → Result AggregateError Rat
parsed_volume none = err invalid_decimal
parsed_volume (some r) = ok r

-- The tests `compareDecimal(left, right) > 0` and `< 0`: by value if both texts are decimals, and
-- by the texts otherwise. `text_lt` stands for `strings.Compare(left, right) < 0`.
abbrev pub compare_values : Bool → Option Rat → Option Rat → Bool
compare_values by_text none right = by_text
compare_values by_text (some l) none = by_text
compare_values by_text (some l) (some r) = lt_rat l r

module _ (set_string : String → Option Rat) (text_lt : String → String → Bool)
    (format_decimal : Rat → String) where
  pub decimal_lt : String → String → Bool
  decimal_lt left right = compare_values (text_lt left right) (set_string left) (set_string right)

  abbrev pub started : Candle → ℕ → ℕ → String → Rat → AggregateWindow
  started c window_start target_duration target_interval volume = record {
    candle = record c {
      interval = target_interval;
      open_time = window_start;
      close_time = window_start + target_duration;
      is_closed = false;
    };
    count = 1;
    volume = volume;
    last_open_time = c.open_time;
    has_gap = false;
    all_closed = c.is_closed;
  }

  pub new_window : Candle → ℕ → ℕ → String → Result AggregateError AggregateWindow
  new_window c window_start target_duration target_interval = do
    volume ← parsed_volume (set_string c.volume)
    ok (started c window_start target_duration target_interval volume)

  abbrev pub extended : ℕ → AggregateWindow → Candle → Rat → AggregateWindow
  extended base_duration w c total = record {
    candle = record w.candle {
      close = c.close;
      high = if decimal_lt w.candle.high c.high then c.high else w.candle.high;
      low = if decimal_lt c.low w.candle.low then c.low else w.candle.low;
      volume = format_decimal total;
    };
    count = suc w.count;
    volume = total;
    last_open_time = c.open_time;
    has_gap = if not (c.open_time == w.last_open_time + base_duration) then true else w.has_gap;
    all_closed = w.all_closed && c.is_closed;
  }

  -- The second half of `add`: one more candle in the current window.
  pub extend_window : ℕ → AggregateWindow → Candle → Result AggregateError AggregateWindow
  unfolding decimal_lt
  extend_window base_duration w c = do
    volume ← parsed_volume (set_string c.volume)
    ok (extended base_duration w c (add_rat w.volume volume))

  pub open_window : Aggregator → Candle → Result AggregateError Aggregator
  unfolding flush new_window
  open_window a c = do
    let window_start = align_time c.open_time a.target_duration
    w ← new_window c window_start a.target_duration a.target_interval
    ok (record (flush a) { current = some w })

  pub extend_current :
      Aggregator → Option AggregateWindow → Candle → Result AggregateError Aggregator
  unfolding open_window extend_window
  extend_current a none c = open_window a c
  extend_current a (some w) c =
      if not (w.candle.open_time == align_time c.open_time a.target_duration)
      then open_window a c
      else extend_window a.base_duration w c >>= λ w'. ok (record a { current = some w' })

  unfoldable pub add : Aggregator → Candle → Result AggregateError Aggregator
  unfolding extend_current
  add a c = extend_current a a.current c

  unfoldable pub add_all : Aggregator → List Candle → Result AggregateError Aggregator
  add_all a [] = ok a
  add_all a (c ∷ cs) = add a c >>= λ a'. add_all a' cs

  pub aggregate_sorted : Aggregator → List Candle → Result AggregateError (List Candle)
  unfolding add_all flush sorted_candles
  aggregate_sorted a [] = ok []
  aggregate_sorted a (c ∷ cs) = add_all a (sorted_candles (c ∷ cs)) >>= λ a'. ok (flush a').result

  unfoldable pub aggregate_candles : List Candle → String → Result AggregateError (List Candle)
  unfolding aggregate_sorted new_aggregator
  aggregate_candles base_candles target_interval = do
    target_duration ← map_err aggregate_interval (interval_duration target_interval)
    base_duration ← map_err aggregate_interval (interval_duration base_candle_interval)
    refuse_if (leb target_duration base_duration || not (target_duration % base_duration == 0))
        not_aggregatable
    aggregate_sorted (new_aggregator target_interval target_duration base_duration) base_candles
