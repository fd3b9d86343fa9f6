-- ===== src/Exchange/RateLimit/Fixed.antt =====
-- internal/exchange/ratelimit.go, `FixedWindowRateLimiter`: the limit holds, and a wait ends.
use tictick_hi.Base.{ℕ, ◌+◌, ◌≤◌, ◌<◌, ◌≡◌, true, false, some, List, [], ◌∷◌, arith, if◌then◌else◌}
use tictick_hi.Exchange.RateLimit.{
  FixedWindow, Round, granted, refresh, reserve, wait, least_weight,
}

-- A configured window that has not been overdrawn.
pub record IsValid (w : FixedWindow) : Type 0 where
  pub window_pos : 0 < w.window
  pub within : w.used ≤ w.limit

pub refresh-IsValid : (now : ℕ) (w : FixedWindow) → IsValid w → IsValid (refresh now w)
unfolding refresh
refresh-IsValid now w v = ground arith

-- A call of `reserve`, at any time and for any weight, granted or refused, keeps the window within
-- its limit.
pub reserve-IsValid :
    (now weight : ℕ) (w : FixedWindow) → IsValid w → IsValid (reserve now weight w).0
unfolding reserve
reserve-IsValid now weight w v = ground arith

-- A request that is refused has to wait, and asking once more when that time is over is granted,
-- if the weight is within the capacity and nobody else asks.
pub reserve_again :
    (now weight : ℕ) (w : FixedWindow)
    → IsValid w
    → weight ≤ w.limit
    → (reserve now weight w).2 ≡ false
    → (0 < (reserve now weight w).1)
      × ((reserve (now + (reserve now weight w).1) weight (reserve now weight w).0).2 ≡ true)
unfolding reserve
reserve_again now weight w v h r = ground arith

reserve_later :
    (now later weight : ℕ) (w : FixedWindow)
    → IsValid w
    → weight ≤ w.limit
    → (reserve now weight w).2 ≡ false
    → now + (reserve now weight w).1 ≤ later
    → (0 < (reserve now weight w).1) × ((reserve later weight (reserve now weight w).0).2 ≡ true)
unfolding reserve
reserve_later now later weight w v h r e = ground arith

-- The calls of one period: each asks for a weight at a time before the window ends.
pub record Request : Type 0 where
  pub now : ℕ
  pub weight : ℕ

-- The weights granted to the requests, in order, and the state after them.
pub granted_total : FixedWindow → List Request → FixedWindow × ℕ
granted_total w [] = (w, 0)
granted_total w (r ∷ rs) =
    let (w', wait_for, done) = reserve r.now r.weight w in
    let (w'', total) = granted_total w' rs in (w'', if done then r.weight + total else total)

abbrev pub Before : ℕ → List Request → Type 0
Before end [] = Unit
Before end (r ∷ rs) = (r.now < end) × Before end rs

reserve_before :
    (end now weight : ℕ) (w : FixedWindow)
    → w.reset_at ≡ some end
    → now < end
    → ((reserve now weight w).0.reset_at ≡ some end)
      × ((reserve now weight w).0.limit ≡ w.limit)
      × ((reserve now weight w).0.used ≡ w.used + (if (reserve now weight w).2 then weight else 0))
unfolding reserve
reserve_before end now weight w e h = ground arith

-- Whatever is asked before the window ends, the weights granted and those used before together
-- never pass the limit.
pub granted_total-le :
    (end : ℕ) (w : FixedWindow) (rs : List Request)
    → IsValid w
    → w.reset_at ≡ some end
    → Before end rs
    → w.used + (granted_total w rs).1 ≤ w.limit
unfolding granted_total
granted_total-le end w [] v e h = omega (arith, v.within)
granted_total-le end w (r ∷ rs) v e h = ground (
  arith,
  reserve_before end r.now r.weight w e h.0,
  granted_total-le end (reserve r.now r.weight w).0 rs (reserve-IsValid r.now r.weight w v)
      (reserve_before end r.now r.weight w e h.0).0 h.1,
)

-- `Wait` on an idle limiter is served by its second round at the latest: if the first round finds
-- the window full and is not cancelled, a round at or after the end of its wait is granted.
pub wait_two_rounds :
    (weight : ℕ) (w : FixedWindow) (first second : Round)
    → IsValid w
    → 0 < w.limit
    → least_weight weight ≤ w.limit
    → first.cancelled ≡ false
    → first.now + (reserve first.now (least_weight weight) w).1 ≤ second.now
    → (wait weight w (first ∷ second ∷ [])).1 ≡ granted
unfolding wait
wait_two_rounds weight w first second v l h c late =
    ground (arith, reserve_later first.now second.now (least_weight weight) w v h)
