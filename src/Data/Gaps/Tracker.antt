-- ===== src/Data/Gaps/Tracker.antt =====
-- The page-by-page tracker finds the gaps that `DetectCandleGapsInRange` finds at once.
use mathlib.Core.List.{append_assoc}
use tictick_hi.Base.{ℕ, ◌≡◌, refl, String, Option, none, some, List, [], ◌∷◌, ◌++◌, ok}
use tictick_hi.Data.Interval.{interval_duration}
use tictick_hi.Data.Model.{Candle, CandleGap}
use tictick_hi.Data.Validation.Series.{IsRising}
use tictick_hi.Data.Gaps.{
  leading_gap, inner_gap, inner_gaps, trailing_gap, last_open, gaps_of_sorted,
  detect_candle_gaps_in_range, new_candle_gap_tracker, add_candle, add_candles, finish,
}
use tictick_hi.Data.Gaps.Sorting.{sorted_candles-IsRising}

tracked :
    (d p : ℕ) (from to : Option ℕ) (gs : List CandleGap) (cs : List Candle)
    → finish (
        add_candles
          (record { duration = d; from = from; to = to; previous_open = some p; gaps = gs })
          cs)
      ≡ gs ++ (inner_gaps d p cs ++ trailing_gap d to (last_open p cs))
unfolding add_candles add_candle finish inner_gaps
tracked d p from to gs [] = refl
tracked d p from to gs (c ∷ cs) =
    rw (tracked d c.open_time from to (gs ++ inner_gap d p c.open_time) cs) (simp append_assoc)

tracked_from_start :
    (d : ℕ) (from to : Option ℕ) (cs : List Candle)
    → finish (add_candles (new_candle_gap_tracker d from to) cs) ≡ gaps_of_sorted d from to cs
unfolding add_candles add_candle finish new_candle_gap_tracker gaps_of_sorted
tracked_from_start d from to [] = refl
tracked_from_start d from to (c ∷ cs) =
    tracked d c.open_time from to (leading_gap d from c.open_time) cs

-- Over candles with strictly rising open times, in any range and for an interval that parses, the
-- tracker ends with exactly the gaps that `DetectCandleGapsInRange` reports.
pub finish-detect_candle_gaps_in_range :
    (cs : List Candle) (interval : String) (d : ℕ) (from to : Option ℕ)
    → interval_duration interval ≡ ok d
    → IsRising none cs
    → detect_candle_gaps_in_range cs interval from to
      ≡ ok (finish (add_candles (new_candle_gap_tracker d from to) cs))
unfolding detect_candle_gaps_in_range
finish-detect_candle_gaps_in_range cs interval d from to e h =
    rw (e, sorted_candles-IsRising cs h, tracked_from_start d from to cs)
