-- ===== src/Exchange/RateLimit.antt =====
-- internal/exchange/ratelimit.go: limiters over fixed windows. Every call reads the clock once,
-- under the lock; the reading is an argument here, so a step is atomic as in the source.
pub mod Fixed
pub mod Multi
use tictick_hi.Base.{
  ℕ, ◌+◌, ◌-◌, Bool, true, false, Option, none, some, List, [], ◌∷◌, map, ltb, leb, if◌then◌else◌,
  Result, ok, err, ◌>>=◌, ◌>>◌, refuse_if,
}

-- `FixedWindowRateLimiter` and `fixedWindowState`; the zero time is `none`.
pub record FixedWindow : Type 0 where
  pub limit : ℕ
  pub window : ℕ
  pub used : ℕ
  pub reset_at : Option ℕ

pub record RateLimitWindow : Type 0 where
  pub limit : ℕ
  pub window : ℕ

pub data LimitError : Type 0 where
  not_configured weight_exceeds_capacity invalid_window context_done : LimitError

unfoldable pub new_fixed_window_rate_limiter : ℕ → ℕ → ℕ → FixedWindow
new_fixed_window_rate_limiter limit window now = record {
  limit = limit;
  window = window;
  used = 0;
  reset_at = some (now + window);
}

-- `limiter.resetAt.IsZero() || !now.Before(limiter.resetAt)`
abbrev pub is_over : Option ℕ → ℕ → Bool
is_over none now = true
is_over (some t) now = leb t now

unfoldable pub refresh : ℕ → FixedWindow → FixedWindow
refresh now w =
    if is_over w.reset_at now then record w { used = 0; reset_at = some (now + w.window) } else w

abbrev pub time_left : Option ℕ → ℕ → ℕ
time_left none now = 0
time_left (some t) now = t - now

-- `reserve` after the window has been refreshed: the new state, the wait and whether it is granted.
unfoldable pub take_weight : ℕ → ℕ → FixedWindow → FixedWindow × ℕ × Bool
take_weight now weight w =
    if leb (w.used + weight) w.limit
    then (record w { used = w.used + weight }, 0, true)
    else (w, time_left w.reset_at now, false)

unfoldable pub reserve : ℕ → ℕ → FixedWindow → FixedWindow × ℕ × Bool
unfolding refresh take_weight
reserve now weight w = take_weight now weight (refresh now w)

-- One round of `Wait`'s loop: when it asks, and whether the context ends before the timer.
pub record Round : Type 0 where
  pub now : ℕ
  pub cancelled : Bool

pub data Waited : Type 0 where
  granted still_waiting : Waited
  refused : LimitError → Waited

unfoldable pub least_weight : ℕ → ℕ
least_weight weight = if leb weight 0 then 1 else weight

-- The `for` loop of `Wait`, over the rounds that happen.
unfoldable pub wait_rounds : ℕ → FixedWindow → List Round → FixedWindow × Waited
unfolding reserve
wait_rounds weight w [] = (w, still_waiting)
wait_rounds weight w (r ∷ rs) =
    let (w', wait_for, done) = reserve r.now weight w in
    let rest = wait_rounds weight w' rs in
    if done
    then (w', granted)
    else (if leb wait_for 0
        then rest
        else (if r.cancelled then (w', refused context_done) else rest))

unfoldable pub wait : ℕ → FixedWindow → List Round → FixedWindow × Waited
unfolding wait_rounds least_weight
wait weight w rs =
    let asked = least_weight weight in
    if leb w.limit 0
    then (w, refused not_configured)
    else (if leb w.window 0
        then (w, refused not_configured)
        else (if ltb w.limit asked
            then (w, refused weight_exceeds_capacity)
            else wait_rounds asked w rs))

-- `MultiWindowRateLimiter`: the list of its windows.
abbrev pub initial_state : ℕ → ℕ → RateLimitWindow → FixedWindow
initial_state now usage w = record {
  limit = w.limit;
  window = w.window;
  used = if ltb w.limit usage then w.limit else usage;
  reset_at = some (now + w.window);
}

unfoldable pub initial_windows : ℕ → ℕ → List RateLimitWindow → Result LimitError (List FixedWindow)
initial_windows now usage [] = ok []
initial_windows now usage (w ∷ ws) =
    let rest = initial_windows now usage ws in
    do
      refuse_if (leb w.limit 0) invalid_window
      refuse_if (leb w.window 0) invalid_window
      states ← rest
      ok (initial_state now usage w ∷ states)

unfoldable pub new_multi_window_rate_limiter_with_initial_usage :
    ℕ → List RateLimitWindow → ℕ → Result LimitError (List FixedWindow)
unfolding initial_windows
new_multi_window_rate_limiter_with_initial_usage now [] usage = err not_configured
new_multi_window_rate_limiter_with_initial_usage now (w ∷ ws) usage =
    initial_windows now usage (w ∷ ws)

unfoldable pub new_multi_window_rate_limiter :
    ℕ → List RateLimitWindow → Result LimitError (List FixedWindow)
unfolding new_multi_window_rate_limiter_with_initial_usage
new_multi_window_rate_limiter now ws = new_multi_window_rate_limiter_with_initial_usage now ws 0

unfoldable pub fits_all : ℕ → List FixedWindow → Result LimitError (Unit {0})
fits_all weight [] = ok tt
fits_all weight (w ∷ ws) =
    let rest = fits_all weight ws in
    if ltb w.limit weight then err weight_exceeds_capacity else rest

unfoldable pub validate_weight : ℕ → List FixedWindow → Result LimitError (Unit {0})
unfolding fits_all
validate_weight weight [] = err not_configured
validate_weight weight (w ∷ ws) = fits_all weight (w ∷ ws)

-- What one window adds to the wait.
unfoldable pub window_wait : ℕ → ℕ → FixedWindow → ℕ
window_wait now weight w = if ltb w.limit (w.used + weight) then time_left w.reset_at now else 0

-- The first loop of `reserve`, over windows that have been refreshed: the longest wait.
unfoldable pub longest_wait : ℕ → ℕ → List FixedWindow → ℕ
unfolding window_wait
longest_wait now weight [] = 0
longest_wait now weight (w ∷ ws) =
    let rest = longest_wait now weight ws in
    if ltb rest (window_wait now weight w) then window_wait now weight w else rest

abbrev pub charge : ℕ → FixedWindow → FixedWindow
charge weight w = record w { used = w.used + weight }

unfoldable pub refresh_all : ℕ → List FixedWindow → List FixedWindow
unfolding refresh
refresh_all now [] = []
refresh_all now (w ∷ ws) = refresh now w ∷ refresh_all now ws

unfoldable pub charge_all : ℕ → List FixedWindow → List FixedWindow
charge_all weight [] = []
charge_all weight (w ∷ ws) = charge weight w ∷ charge_all weight ws

unfoldable pub reserve_all : ℕ → ℕ → List FixedWindow → List FixedWindow × ℕ × Bool
unfolding refresh_all longest_wait charge_all
reserve_all now weight ws =
    let fresh = refresh_all now ws in
    let wait_for = longest_wait now weight fresh in
    if ltb 0 wait_for then (fresh, wait_for, false) else (charge_all weight fresh, 0, true)

unfoldable pub wait_all_rounds : ℕ → List FixedWindow → List Round → List FixedWindow × Waited
unfolding reserve_all
wait_all_rounds weight ws [] = (ws, still_waiting)
wait_all_rounds weight ws (r ∷ rs) =
    let (ws', wait_for, done) = reserve_all r.now weight ws in
    let rest = wait_all_rounds weight ws' rs in
    if done
    then (ws', granted)
    else (if leb wait_for 0
        then rest
        else (if r.cancelled then (ws', refused context_done) else rest))

unfoldable pub wait_all : ℕ → List FixedWindow → List Round → List FixedWindow × Waited
unfolding wait_all_rounds least_weight validate_weight
wait_all weight ws rs = elim (validate_weight (least_weight weight) ws) [
  | err e ↦ (ws, refused e)
  | ok u ↦ wait_all_rounds (least_weight weight) ws rs
]
