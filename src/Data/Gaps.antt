-- ===== src/Data/Gaps.antt =====
-- internal/data/candle_provider.go, `DetectCandleGapsInRange`, and the tracker of
-- candle_provider_aggregation.go that finds the same gaps page by page.
pub mod Sorting
pub mod Tracker
pub mod Accounting
use tictick_hi.Base.{
  ℕ, ◌+◌, ◌-◌, ◌/◌, String, Bool, Option, none, some, List, [], ◌∷◌, ◌++◌, ltb, leb, if◌then◌else◌,
  Result, ok, err, ◌>>=◌, last_or,
}
use tictick_hi.Data.Interval.{IntervalError, interval_duration, align_time}
use tictick_hi.Data.Model.{Candle, CandleGap}
use tictick_hi.Data.Query.{both_ends}

unfoldable pub first_expected_open : ℕ → ℕ → ℕ
first_expected_open value duration =
    let aligned = align_time value duration in
    if ltb aligned value then aligned + duration else aligned

unfoldable pub new_candle_gap : ℕ → ℕ → ℕ → CandleGap
new_candle_gap from to duration =
    let missing = (to - from) / duration in
    record { from = from; to = to; missing_candles = if ltb missing 1 then 1 else missing }

-- `sort.Slice` by the open time. It may order equal open times either way; here they keep theirs.
unfoldable pub insert_candle : Candle → List Candle → List Candle
insert_candle c [] = c ∷ []
insert_candle c (x ∷ xs) =
    let rest = insert_candle c xs in if leb c.open_time x.open_time then c ∷ x ∷ xs else x ∷ rest

unfoldable pub sorted_candles : List Candle → List Candle
unfolding insert_candle
sorted_candles [] = []
sorted_candles (c ∷ cs) = insert_candle c (sorted_candles cs)

-- What `append` adds for one test: a gap or nothing.
unfoldable pub leading_gap : ℕ → Option ℕ → ℕ → List CandleGap
leading_gap duration none first_open = []
leading_gap duration (some from) first_open =
    let expected = first_expected_open from duration in
    if ltb expected first_open then new_candle_gap expected first_open duration ∷ [] else []

unfoldable pub inner_gap : ℕ → ℕ → ℕ → List CandleGap
inner_gap duration previous actual =
    let expected = previous + duration in
    if ltb expected actual then new_candle_gap expected actual duration ∷ [] else []

unfoldable pub trailing_gap : ℕ → Option ℕ → ℕ → List CandleGap
trailing_gap duration none last_open = []
trailing_gap duration (some to) last_open =
    let last_expected = align_time to duration in
    let next_expected = last_open + duration in
    if ltb last_expected next_expected
    then []
    else new_candle_gap next_expected (last_expected + duration) duration ∷ []

-- The range with no candle in it.
unfoldable pub whole_gap : ℕ → ℕ → ℕ → List CandleGap
whole_gap duration from to =
    let first_expected = first_expected_open from duration in
    let last_expected = align_time to duration in
    if ltb last_expected first_expected
    then []
    else new_candle_gap first_expected (last_expected + duration) duration ∷ []

-- The loop from index 1, `previous` being the open time before.
unfoldable pub inner_gaps : ℕ → ℕ → List Candle → List CandleGap
unfolding inner_gap
inner_gaps duration previous [] = []
inner_gaps duration previous (c ∷ cs) =
    inner_gap duration previous c.open_time ++ inner_gaps duration c.open_time cs

abbrev pub last_open : ℕ → List Candle → ℕ
last_open t [] = t
last_open t (c ∷ cs) = last_open c.open_time cs

-- After the sort.
unfoldable pub gaps_of_sorted : ℕ → Option ℕ → Option ℕ → List Candle → List CandleGap
unfolding leading_gap inner_gaps trailing_gap whole_gap
gaps_of_sorted duration from to [] = both_ends [] (whole_gap duration) from to
gaps_of_sorted duration from to (c ∷ cs) =
    leading_gap duration from c.open_time
    ++ (inner_gaps duration c.open_time cs ++ trailing_gap duration to (last_open c.open_time cs))

unfoldable pub detect_candle_gaps_in_range :
    List Candle → String → Option ℕ → Option ℕ → Result IntervalError (List CandleGap)
unfolding gaps_of_sorted sorted_candles
detect_candle_gaps_in_range cs interval from to = do
  duration ← interval_duration interval
  ok (gaps_of_sorted duration from to (sorted_candles cs))

unfoldable pub detect_candle_gaps : List Candle → String → Result IntervalError (List CandleGap)
unfolding detect_candle_gaps_in_range
detect_candle_gaps cs interval = detect_candle_gaps_in_range cs interval none none

pub record GapTracker : Type 0 where
  pub duration : ℕ
  pub from : Option ℕ
  pub to : Option ℕ
  pub previous_open : Option ℕ
  pub gaps : List CandleGap

unfoldable pub new_candle_gap_tracker : ℕ → Option ℕ → Option ℕ → GapTracker
new_candle_gap_tracker duration from to = record {
  duration = duration;
  from = from;
  to = to;
  previous_open = none;
  gaps = [];
}

-- What `Add` appends.
abbrev pub added_gap : GapTracker → Option ℕ → ℕ → List CandleGap
added_gap t none open_time = leading_gap t.duration t.from open_time
added_gap t (some previous) open_time = inner_gap t.duration previous open_time

unfoldable pub add_candle : GapTracker → Candle → GapTracker
unfolding leading_gap inner_gap
add_candle t c = record t {
  previous_open = some c.open_time;
  gaps = t.gaps ++ added_gap t t.previous_open c.open_time;
}

abbrev pub final_gap : GapTracker → Option ℕ → List CandleGap
final_gap t none = both_ends [] (whole_gap t.duration) t.from t.to
final_gap t (some previous) = trailing_gap t.duration t.to previous

unfoldable pub finish : GapTracker → List CandleGap
unfolding whole_gap trailing_gap
finish t = t.gaps ++ final_gap t t.previous_open

unfoldable pub add_candles : GapTracker → List Candle → GapTracker
add_candles t [] = t
add_candles t (c ∷ cs) = add_candles (add_candle t c) cs
