-- ===== src/Data/Provider/Serving/Ranges.antt =====
-- internal/data/candle_provider.go: the range and the number of aggregated candles.
use tictick_hi.Base.{
  ℕ, zero, suc, ◌-◌, ◌≤◌, inl, inr, arith, Option, none, some, List, [], ◌∷◌, leb, Option-cases,
  Bool-cases, length, All, length-take, length-drop, take, drop,
}
use tictick_hi.Data.Model.{Candle, CandleQuery}
use tictick_hi.Data.Query.{normalize_candle_limit}
use tictick_hi.Data.Provider.BaseWindow.{AggregationBaseWindow}
use tictick_hi.Data.Provider.Trimming.{filter_candles_in_range, trim_aggregated_candles}
use tictick_hi.Data.Provider.Aggregation.{AggregationBuildResult}
use tictick_hi.Data.Provider.Serving.{aggregated_result}

abbrev pub IsFrom : Option ℕ → ℕ → Type 0
IsFrom none t = Unit
IsFrom (some from) t = from ≤ t

abbrev pub IsUpTo : Option ℕ → ℕ → Type 0
IsUpTo none t = Unit
IsUpTo (some to) t = t ≤ to

abbrev pub IsInRange : Option ℕ → Option ℕ → Candle → Type 0
IsInRange from to c = IsFrom from c.open_time × IsUpTo to c.open_time

filter-IsInRange :
    (cs : List Candle) (from to : Option ℕ)
    → All (IsInRange from to) (filter_candles_in_range cs from to)
unfolding filter_candles_in_range
filter-IsInRange [] from to = tt
filter-IsInRange (c ∷ cs) none none = ground (arith, filter-IsInRange cs none none)
filter-IsInRange (c ∷ cs) (some f) none = ground (arith, filter-IsInRange cs (some f) none)
filter-IsInRange (c ∷ cs) none (some t) = ground (arith, filter-IsInRange cs none (some t))
filter-IsInRange (c ∷ cs) (some f) (some t) = ground (arith, filter-IsInRange cs (some f) (some t))

module _ {ℓ} {A : Type ℓ} where
  All-take {κ} : (P : A → Type κ) (n : ℕ) (xs : List A) → All P xs → All P (take n xs)
  All-take P zero xs h = tt
  All-take P (suc n) [] h = tt
  All-take P (suc n) (x ∷ xs) h = (h.0, All-take P n xs h.1)

  All-drop {κ} : (P : A → Type κ) (n : ℕ) (xs : List A) → All P xs → All P (drop n xs)
  All-drop P zero xs h = h
  All-drop P (suc n) [] h = tt
  All-drop P (suc n) (x ∷ xs) h = All-drop P n xs h.1

trim_aggregated_candles-All :
    (P : Candle → Type 0) (cs : List Candle) (q : CandleQuery)
    → All P cs
    → All P (trim_aggregated_candles cs q)
unfolding trim_aggregated_candles
trim_aggregated_candles-All P cs q h =
    let n = normalize_candle_limit q.limit in
    elim (Bool-cases (leb (length cs) n)) [
      | inl e ↦ rw e h
      | inr e ↦ elim (Option-cases q.from) [
        | inl f ↦ rw (e, trim_aggregated_candles) (rw f (All-drop P (length cs - n) cs h))
        | inr (t, f) ↦ rw (e, trim_aggregated_candles) (rw f (All-take P n cs h))
      ]
    ]

trim_aggregated_candles-le :
    (cs : List Candle) (q : CandleQuery)
    → length (trim_aggregated_candles cs q) ≤ normalize_candle_limit q.limit
unfolding trim_aggregated_candles
trim_aggregated_candles-le cs q =
    let n = normalize_candle_limit q.limit in
    ground (arith, length-take n cs, length-drop (length cs - n) cs)

-- An aggregated answer lies in the range that was asked for and within the normalised limit.
pub aggregated_result_bounds :
    (q : CandleQuery) (w : AggregationBaseWindow) (a : AggregationBuildResult)
    → All (IsInRange q.from q.to) (aggregated_result q w a).candles
      × (length (aggregated_result q w a).candles ≤ normalize_candle_limit q.limit)
unfolding aggregated_result
aggregated_result_bounds q w a = (
  trim_aggregated_candles-All (IsInRange q.from q.to)
      (filter_candles_in_range a.candles q.from q.to) q (filter-IsInRange a.candles q.from q.to),
  trim_aggregated_candles-le (filter_candles_in_range a.candles q.from q.to) q,
)
