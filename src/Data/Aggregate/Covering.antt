-- ===== src/Data/Aggregate/Covering.antt =====
-- internal/data/aggregate.go, `AggregateCandles`: what the whole aggregation gives.
use tictick_hi.Base.{
  ℕ, ◌%◌, ◌≡◌, refl, subst, inl, inr, arith, String, Bool, false, not, ◌||◌, Option, List, [], ◌∷◌,
  leb, ◌==◌, ok, >>=-eq-ok, ok-injective, Bool-cases, All,
}
use tictick_hi.Base.Rat.{Rat}
use tictick_hi.Data.Interval.{interval_duration, minute, base_candle_interval}
use tictick_hi.Data.Model.{Candle}
use tictick_hi.Data.Gaps.{insert_candle, sorted_candles}
use tictick_hi.Data.Aggregate.{aggregate_candles, aggregate_sorted, add_all, new_aggregator}
use tictick_hi.Data.Aggregate.Windows.{IsAggregated}
use tictick_hi.Data.Aggregate.Adding.{add_all-IsAggregated}

base_duration_lem : interval_duration base_candle_interval ≡ ok minute
unfolding interval_duration
base_duration_lem = refl

module _ (set_string : String → Option Rat) (text_lt : String → String → Bool)
    (format_decimal : Rat → String) where
  -- What is left of the aggregation once its guards have passed.
  aggregate_candles-sorted :
      (cs rs : List Candle) (interval : String) (target : ℕ)
      → interval_duration interval ≡ ok target
      → aggregate_candles set_string text_lt format_decimal cs interval ≡ ok rs
      → (leb target minute || not (target % minute == 0) ≡ false)
        × (aggregate_sorted set_string text_lt format_decimal
              (new_aggregator interval target minute)
              cs
            ≡ ok rs)
  unfolding aggregate_candles
  aggregate_candles-sorted cs rs interval target d e =
      elim (Bool-cases (leb target minute || not (target % minute == 0))) [
        | inl bad ↦ absurd (ground (arith, base_duration_lem))
        | inr fine ↦ (fine, ground (arith, base_duration_lem))
      ]

module _ (P : Candle → Type 0) where
  insert_candle-All : (c : Candle) (cs : List Candle) → P c → All P cs → All P (insert_candle c cs)
  unfolding insert_candle
  insert_candle-All c [] p h = (p, tt)
  insert_candle-All c (x ∷ xs) p h = elim (Bool-cases (leb c.open_time x.open_time)) [
    | inl le ↦ rw le (p, h)
    | inr gt ↦ rw gt (h.0, insert_candle-All c xs p h.1)
  ]

  sorted_candles-All : (cs : List Candle) → All P cs → All P (sorted_candles cs)
  unfolding sorted_candles
  sorted_candles-All [] h = tt
  sorted_candles-All (c ∷ cs) h =
      insert_candle-All c (sorted_candles cs) h.0 (sorted_candles-All cs h.1)

  module _ (set_string : String → Option Rat) (text_lt : String → String → Bool)
      (format_decimal : Rat → String) where
    aggregate_sorted-IsAggregated :
        (cs rs : List Candle) (interval : String) (target : ℕ)
        → All P cs
        → aggregate_sorted set_string text_lt format_decimal
            (new_aggregator interval target minute)
            cs
          ≡ ok rs
        → All (IsAggregated P target minute) rs
    unfolding aggregate_sorted
    aggregate_sorted-IsAggregated [] rs interval target h e =
        subst (All (IsAggregated P target minute)) (ok-injective e) tt
    aggregate_sorted-IsAggregated (c ∷ cs) rs interval target h e =
        let (a, added, same) =
          >>=-eq-ok
            (add_all set_string text_lt format_decimal (new_aggregator interval target minute)
              (sorted_candles (c ∷ cs)))
            _ e in
        subst (All (IsAggregated P target minute)) (ok-injective same) (
          add_all-IsAggregated P target minute set_string text_lt format_decimal interval a
            (sorted_candles (c ∷ cs)) (sorted_candles-All (c ∷ cs) h) added)

    -- The candles that `AggregateCandles` gives for an interval of `target` nanoseconds, from base
    -- candles that have any property `P`: each covers its interval, and is either not closed or
    -- stands for `target / minute` closed base candles of its own window, with the property, that
    -- follow each other without a gap.
    pub aggregate_candles-IsAggregated :
        (cs rs : List Candle) (interval : String) (target : ℕ)
        → interval_duration interval ≡ ok target
        → All P cs
        → aggregate_candles set_string text_lt format_decimal cs interval ≡ ok rs
        → All (IsAggregated P target minute) rs
    unfolding aggregate_candles
    aggregate_candles-IsAggregated cs rs interval target d h e =
        let (_, sorted) =
          aggregate_candles-sorted set_string text_lt format_decimal cs rs interval target d e in
        aggregate_sorted-IsAggregated cs rs interval target h sorted
