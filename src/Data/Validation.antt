-- ===== src/Data/Validation.antt =====
-- internal/data/candle_validation.go. A decimal text is read by `set_string`, which stands for
-- `big.Rat.SetString` and may be any reader.
pub mod Values
pub mod Series
pub mod Issues
use tictick_hi.Base.{
  ℕ, ◌+◌, ◌≡◌, String, Bool, true, false, not, ◌&&◌, ◌||◌, Option, none, some, List, [], ◌∷◌, ltb,
  ◌==◌, if◌then◌else◌, Result, ok, err, ◌>>=◌, ◌>>◌, refuse_if, map_err, str_eq,
}
use tictick_hi.Base.Rat.{Rat, zero_rat, lt_rat, le_rat}
use tictick_hi.Data.Interval.{interval_duration, align_time}
use tictick_hi.Data.Model.{
  Candle, CandleError, CandleIssue, IssueCode, Field, open_field, high_field, low_field,
  close_field, volume_field, not_a_decimal, not_positive, negative_volume, high_below_bounds,
  low_above_bounds, interval_error, unaligned_open_time, wrong_close_time, target_mismatch,
  out_of_order, duplicate_open_time, invalid_open_price, invalid_high_price, invalid_low_price,
  invalid_close_price, invalid_volume, invalid_high_bound, invalid_low_bound, invalid_open_time,
  invalid_close_time,
}

-- aggregate.go: `parseDecimal`, with the error of candle_validation.go.
abbrev pub parsed : Field → Option Rat → Result CandleError Rat
parsed field none = err (not_a_decimal field)
parsed field (some r) = ok r

-- `high` is below one of the others; `low` is above one of them.
abbrev pub high_breaks : Rat → Rat → Rat → Rat → Bool
high_breaks opening high low close = lt_rat high opening || lt_rat high close || lt_rat high low

abbrev pub low_breaks : Rat → Rat → Rat → Rat → Bool
low_breaks opening high low close = lt_rat opening low || lt_rat close low || lt_rat high low

unfoldable pub check_bounds : Rat → Rat → Rat → Rat → Rat → Result CandleError (Unit {0})
check_bounds opening high low close volume = do
  refuse_if (le_rat opening zero_rat) (not_positive open_field)
  refuse_if (le_rat high zero_rat) (not_positive high_field)
  refuse_if (le_rat low zero_rat) (not_positive low_field)
  refuse_if (le_rat close zero_rat) (not_positive close_field)
  refuse_if (lt_rat volume zero_rat) negative_volume
  refuse_if (high_breaks opening high low close) high_below_bounds
  refuse_if (low_breaks opening high low close) low_above_bounds

abbrev pub issue : Candle → IssueCode → CandleError → CandleIssue
issue c code message = record { code = code; message = message; open_time = some c.open_time }

unfoldable pub detect_candle_time_issue : Candle → String → Option CandleIssue
detect_candle_time_issue c interval = elim (interval_duration interval) [
  | err e ↦ none
  | ok duration ↦
      if not (align_time c.open_time duration == c.open_time)
      then some (issue c invalid_open_time unaligned_open_time)
      else (if not (c.close_time == c.open_time + duration)
          then some (issue c invalid_close_time wrong_close_time)
          else none)
]

-- The checks of `DetectCandleIssue` on parsed values, in its order.
unfoldable pub bounds_issue : Candle → Rat → Rat → Rat → Rat → Rat → Option CandleIssue
bounds_issue c opening high low close volume =
    if le_rat opening zero_rat
    then some (issue c invalid_open_price (not_positive open_field))
    else (if le_rat high zero_rat
        then some (issue c invalid_high_price (not_positive high_field))
        else (if le_rat low zero_rat
            then some (issue c invalid_low_price (not_positive low_field))
            else (if le_rat close zero_rat
                then some (issue c invalid_close_price (not_positive close_field))
                else (if lt_rat volume zero_rat
                    then some (issue c invalid_volume negative_volume)
                    else (if high_breaks opening high low close
                        then some (issue c invalid_high_bound high_below_bounds)
                        else (if low_breaks opening high low close
                            then some (issue c invalid_low_bound low_above_bounds)
                            else detect_candle_time_issue c c.interval))))))

abbrev pub on_decimal {ℓ} : {A : Type ℓ} → A → (Rat → A) → Option Rat → A
on_decimal missing found none = missing
on_decimal missing found (some r) = found r

-- The checks of one candle's times against the interval and the candle before it.
unfoldable pub check_times : ℕ → Option ℕ → Candle → Result CandleError (Unit {0})
check_times duration previous c = do
  refuse_if (not (align_time c.open_time duration == c.open_time)) unaligned_open_time
  refuse_if (not (c.close_time == c.open_time + duration)) wrong_close_time
  elim previous [
    | none ↦ ok tt
    | some before ↦ do
      refuse_if (ltb c.open_time before) (out_of_order c.open_time)
      refuse_if (c.open_time == before) (duplicate_open_time c.open_time)
  ]

abbrev pub is_target : String → String → String → Candle → Bool
is_target exchange symbol interval c =
    str_eq c.exchange exchange && str_eq c.symbol symbol && str_eq c.interval interval

module _ (set_string : String → Option Rat) where
  pub parse_candle_decimal : Field → String → Result CandleError Rat
  parse_candle_decimal field value = parsed field (set_string value)

  unfoldable pub validate_candle_values : Candle → Result CandleError (Unit {0})
  unfolding parse_candle_decimal check_bounds
  validate_candle_values c = do
    opening ← parse_candle_decimal open_field c.open_price
    high ← parse_candle_decimal high_field c.high
    low ← parse_candle_decimal low_field c.low
    close ← parse_candle_decimal close_field c.close
    volume ← parse_candle_decimal volume_field c.volume
    check_bounds opening high low close volume

  unfoldable pub detect_candle_issue : Candle → Option CandleIssue
  detect_candle_issue c =
      on_decimal (some (issue c invalid_open_price (not_a_decimal open_field)))
        (λ opening.
          on_decimal (some (issue c invalid_high_price (not_a_decimal high_field)))
            (λ high.
              on_decimal (some (issue c invalid_low_price (not_a_decimal low_field)))
                (λ low.
                  on_decimal (some (issue c invalid_close_price (not_a_decimal close_field)))
                    (λ close.
                      on_decimal (some (issue c invalid_volume (not_a_decimal volume_field)))
                        (λ volume. bounds_issue c opening high low close volume)
                        (set_string c.volume))
                    (set_string c.close))
                (set_string c.low))
            (set_string c.high))
        (set_string c.open_price)

  -- The loop of `validateCandleSeries`; `previous` is the open time of the candle before.
  unfoldable pub validate_from : ℕ → Option ℕ → List Candle → Result CandleError (Unit {0})
  unfolding validate_candle_values check_times
  validate_from duration previous [] = ok tt
  validate_from duration previous (c ∷ cs) =
      let rest = validate_from duration (some c.open_time) cs in
      validate_candle_values c >> (check_times duration previous c >> rest)

  unfoldable pub validate_candle_series : List Candle → String → Result CandleError (Unit {0})
  unfolding validate_from
  validate_candle_series cs interval = do
    duration ← map_err interval_error (interval_duration interval)
    validate_from duration none cs

  unfoldable pub check_targets :
      String → String → String → List Candle → Result CandleError (Unit {0})
  check_targets exchange symbol interval [] = ok tt
  check_targets exchange symbol interval (c ∷ cs) =
      let rest = check_targets exchange symbol interval cs in
      if is_target exchange symbol interval c then rest else err target_mismatch

  unfoldable pub validate_candle_series_for_target :
      List Candle → String → String → String → Result CandleError (Unit {0})
  unfolding check_targets validate_candle_series
  validate_candle_series_for_target cs exchange symbol interval = do
    check_targets exchange symbol interval cs
    validate_candle_series cs interval
