-- ===== src/Data/Gaps/Sorting.antt =====
-- internal/data/aggregate.go, `sortedCandles`: a series in order is left as it is.
use tictick_hi.Base.{ℕ, ◌≡◌, refl, Option, none, some, List, [], ◌∷◌, arith}
use tictick_hi.Data.Model.{Candle}
use tictick_hi.Data.Validation.Series.{IsRising}
use tictick_hi.Data.Gaps.{insert_candle, sorted_candles}

insert_candle-front :
    (c : Candle) (cs : List Candle) → IsRising (some c.open_time) cs → insert_candle c cs ≡ c ∷ cs
unfolding insert_candle
insert_candle-front c [] h = refl
insert_candle-front c (x ∷ xs) h = ground arith

weaken : (p : Option ℕ) (cs : List Candle) → IsRising p cs → IsRising none cs
weaken p [] h = tt
weaken p (c ∷ cs) h = (tt, h.1)

pub sorted_candles-IsRising : (cs : List Candle) → IsRising none cs → sorted_candles cs ≡ cs
unfolding sorted_candles
sorted_candles-IsRising [] h = refl
sorted_candles-IsRising (c ∷ cs) h =
    rw (sorted_candles-IsRising cs (weaken (some c.open_time) cs h.1))
      (insert_candle-front c cs h.1)
