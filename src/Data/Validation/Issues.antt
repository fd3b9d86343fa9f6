-- ===== src/Data/Validation/Issues.antt =====
-- internal/data/candle_validation.go: `DetectCandleIssue` against `ValidateCandleSeries`.
use tictick_hi.Base.{
  ℕ, ◌≡◌, ◌↔◌, String, Option, none, [], ◌∷◌, arith, ok, Result-cases, Option-cases, inl, inr,
}
use tictick_hi.Base.Rat.{Rat}
use tictick_hi.Data.Interval.{interval_duration}
use tictick_hi.Data.Model.{Candle}
use tictick_hi.Data.Validation.{
  check_times, check_bounds, validate_candle_values, validate_from, validate_candle_series,
  detect_candle_issue, bounds_issue, detect_candle_time_issue, parse_candle_decimal,
}

detect_candle_time_issue-check_times :
    (c : Candle) (interval : String) (d : ℕ)
    → interval_duration interval ≡ ok d
    → (detect_candle_time_issue c interval ≡ none) ↔ (check_times d none c ≡ ok tt)
unfolding detect_candle_time_issue check_times
detect_candle_time_issue-check_times c interval d e = ground arith

bounds_issue-check_bounds :
    (k : Candle) (o h l c v : Rat)
    → (bounds_issue k o h l c v ≡ none)
      ↔ ((check_bounds o h l c v ≡ ok tt) × (detect_candle_time_issue k k.interval ≡ none))
unfolding bounds_issue check_bounds
bounds_issue-check_bounds k o h l c v = ground arith

module _ (set_string : String → Option Rat) where
  detect_candle_issue-values :
      (k : Candle)
      → (detect_candle_issue set_string k ≡ none) ↔ (
          (validate_candle_values set_string k ≡ ok tt)
          × (detect_candle_time_issue k k.interval ≡ none))
  unfolding detect_candle_issue validate_candle_values parse_candle_decimal
  detect_candle_issue-values k = elim (Option-cases (set_string k.open_price)) [
    | inl e ↦ rw e (ground arith)
    | inr (o, e) ↦ rw e (elim (Option-cases (set_string k.high)) [
      | inl e ↦ rw e (ground arith)
      | inr (h, e) ↦ rw e (elim (Option-cases (set_string k.low)) [
        | inl e ↦ rw e (ground arith)
        | inr (l, e) ↦ rw e (elim (Option-cases (set_string k.close)) [
          | inl e ↦ rw e (ground arith)
          | inr (c, e) ↦ rw e (elim (Option-cases (set_string k.volume)) [
            | inl e ↦ rw e (ground arith)
            | inr (v, e) ↦ rw e (bounds_issue-check_bounds k o h l c v)
          ])
        ])
      ])
    ])
  ]

  single_series :
      (k : Candle) (d : ℕ)
      → (validate_from set_string d none (k ∷ []) ≡ ok tt)
        ↔ ((validate_candle_values set_string k ≡ ok tt) × (check_times d none k ≡ ok tt))
  unfolding validate_from
  single_series k d = elim (Result-cases (validate_candle_values set_string k)) [
    | inl (e, p) ↦ rw p (ground arith)
    | inr (u, p) ↦ rw p (elim (Result-cases (check_times d none k)) [
      | inl (e, q) ↦ rw q (ground arith)
      | inr (u, q) ↦ rw q (ground arith)
    ])
  ]

  -- For an interval that parses, `DetectCandleIssue` reports nothing on a candle exactly when
  -- `ValidateCandleSeries` accepts the series of that candle alone, at its own interval.
  pub detect_candle_issue-validate_candle_series :
      (k : Candle) (d : ℕ)
      → interval_duration k.interval ≡ ok d
      → (detect_candle_issue set_string k ≡ none)
        ↔ (validate_candle_series set_string (k ∷ []) k.interval ≡ ok tt)
  unfolding validate_candle_series
  detect_candle_issue-validate_candle_series k d e =
      let (f, g) = detect_candle_issue-values k in
      let (t, u) = detect_candle_time_issue-check_times k k.interval d e in
      let (v, w) = single_series k d in
      rw e ((λ h. w ((f h).0, t (f h).1)), (λ h. g ((v h).0, u (v h).1)))
