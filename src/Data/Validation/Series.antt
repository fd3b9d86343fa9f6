-- ===== src/Data/Validation/Series.antt =====
-- internal/data/candle_validation.go, `validateCandleSeries`: the series that it lets through.
use tictick_hi.Base.{
  ℕ, ◌+◌, ◌<◌, ◌≡◌, refl, ◌↔◌, String, Option, none, some, List, [], ◌∷◌, arith, ok, >>=-eq-ok, All,
}
use tictick_hi.Base.Rat.{Rat}
use tictick_hi.Data.Interval.{interval_duration, align_time}
use tictick_hi.Data.Model.{Candle}
use tictick_hi.Data.Validation.{
  check_times, validate_candle_values, validate_from, validate_candle_series,
}
use tictick_hi.Data.Validation.Values.{HasOhlc, validate_candle_values_iff}

-- The candle opens on a boundary of the interval and closes on the next.
pub record IsOnGrid (duration : ℕ) (c : Candle) : Type 0 where
  pub aligned : align_time c.open_time duration ≡ c.open_time
  pub closes : c.close_time ≡ c.open_time + duration

abbrev pub IsAfter : Option ℕ → ℕ → Type 0
IsAfter none t = Unit
IsAfter (some before) t = before < t

-- The open times rise strictly.
abbrev pub IsRising : Option ℕ → List Candle → Type 0
IsRising previous [] = Unit
IsRising previous (c ∷ cs) = IsAfter previous c.open_time × IsRising (some c.open_time) cs

check_times_iff :
    (duration : ℕ) (previous : Option ℕ) (c : Candle)
    → (check_times duration previous c ≡ ok tt)
      ↔ (IsOnGrid duration c × IsAfter previous c.open_time)
unfolding check_times
check_times_iff duration none c = ground arith
check_times_iff duration (some b) c = ground arith

module _ (set_string : String → Option Rat) where
  pub record IsSound (duration : ℕ) (c : Candle) : Type 0 where
    pub values : HasOhlc set_string c
    pub on_grid : IsOnGrid duration c

  validate_from-IsSound :
      (duration : ℕ) (previous : Option ℕ) (cs : List Candle)
      → validate_from set_string duration previous cs ≡ ok tt
      → All (IsSound duration) cs × IsRising previous cs
  unfolding validate_from
  validate_from-IsSound d p [] h = (tt, tt)
  validate_from-IsSound d p (c ∷ cs) h =
      let (_, values, h1) = >>=-eq-ok (validate_candle_values set_string c) _ h in
      let (_, times, rest) = >>=-eq-ok (check_times d p c) _ h1 in
      let grid = (check_times_iff d p c).0 times in
      let ih = validate_from-IsSound d (some c.open_time) cs rest in
      (
        (
          record { values = (validate_candle_values_iff set_string c).0 values; on_grid = grid.0 },
          ih.0,
        ),
        (grid.1, ih.1),
      )

  validate_from_complete :
      (duration : ℕ) (previous : Option ℕ) (cs : List Candle)
      → All (IsSound duration) cs
      → IsRising previous cs
      → validate_from set_string duration previous cs ≡ ok tt
  unfolding validate_from
  validate_from_complete d p [] h r = refl
  validate_from_complete d p (c ∷ cs) h r =
      rw
        (
          (validate_candle_values_iff set_string c).1 h.0.values,
          (check_times_iff d p c).1 (h.0.on_grid, r.0),
        )
        (validate_from_complete d (some c.open_time) cs h.1 r.1)

  -- With an interval that parses, `ValidateCandleSeries` accepts exactly the series whose candles
  -- have sound prices, open and close on the interval's grid, and have strictly rising open times.
  pub validate_candle_series_iff :
      (cs : List Candle) (interval : String) (duration : ℕ)
      → interval_duration interval ≡ ok duration
      → (validate_candle_series set_string cs interval ≡ ok tt)
        ↔ (All (IsSound duration) cs × IsRising none cs)
  unfolding validate_candle_series
  validate_candle_series_iff cs interval d e =
      rw e (validate_from-IsSound d none cs, λ h. validate_from_complete d none cs h.0 h.1)
