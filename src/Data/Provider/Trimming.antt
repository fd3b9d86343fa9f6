-- ===== src/Data/Provider/Trimming.antt =====
-- internal/data/candle_provider_aggregation.go: the aggregated candles that answer the query.
use tictick_hi.Base.{
  ℕ, ◌-◌, Bool, false, ◌||◌, Option, none, some, List, [], ◌∷◌, ltb, leb, if◌then◌else◌, length,
  drop, take,
}
use tictick_hi.Data.Model.{Candle, CandleQuery}
use tictick_hi.Data.Query.{normalize_candle_limit}

abbrev pub before_start : Option ℕ → ℕ → Bool
before_start none t = false
before_start (some from) t = ltb t from

abbrev pub after_end : Option ℕ → ℕ → Bool
after_end none t = false
after_end (some to) t = ltb to t

unfoldable pub filter_candles_in_range : List Candle → Option ℕ → Option ℕ → List Candle
filter_candles_in_range [] from to = []
filter_candles_in_range (c ∷ cs) from to =
    let rest = filter_candles_in_range cs from to in
    if before_start from c.open_time || after_end to c.open_time then rest else c ∷ rest

abbrev pub trim_from : ℕ → Option ℕ → List Candle → List Candle
trim_from limit none cs = drop (length cs - limit) cs
trim_from limit (some from) cs = take limit cs

unfoldable pub trim_aggregated_candles : List Candle → CandleQuery → List Candle
trim_aggregated_candles cs q =
    let limit = normalize_candle_limit q.limit in
    if leb (length cs) limit then cs else trim_from limit q.from cs
