-- ===== src/Data/Query/Limits.antt =====
-- internal/data/candle_query.go and data_sync_validation.go: what the checks promise.
use native.Mathlib.Nat.{div-le_of_le-mul}
use tictick_hi.Base.{
  ℕ, ◌+◌, ◌-◌, ◌*◌, ◌/◌, ◌%◌, ◌^◌, ◌≤◌, ◌<◌, ◌≡◌, ◌⊎◌, ◌↔◌, String, true, false, Option, none, some,
  arith, ok,
}
use tictick_hi.Data.Interval.{interval_duration}
use tictick_hi.Data.Model.{CandleQuery}
use tictick_hi.Data.Query.{
  normalize_candle_limit, normalize_market_candle_gap_scan_limit,
  normalize_market_candle_invalid_issue_scan_limit, max_candle_limit, check_range,
  validate_candle_query_range, aligned_to_interval, is_supported_interval,
  validate_data_sync_task_window, unaligned, not_before,
}

-- The limit is the default for an unset one, the maximum for one that is too large, and kept
-- otherwise.
abbrev pub IsNormal : ℕ → ℕ → ℕ → ℕ → Type 0
IsNormal default maximum n result =
    ((n ≡ 0) × (result ≡ default))
    ⊎ (((maximum < n) × (result ≡ maximum)) ⊎ ((0 < n) × (n ≤ maximum) × (result ≡ n)))

-- A normalised candle limit lies between 1 and 5000 and is its own normal form; an unset limit is
-- 1000, one over 5000 is 5000, and any other is kept. Both scan limits are the same with 20 and
-- 100.
pub normalize_limits :
    (n : ℕ)
    → ((0 < normalize_candle_limit n)
        × (normalize_candle_limit n ≤ max_candle_limit)
        × (normalize_candle_limit (normalize_candle_limit n) ≡ normalize_candle_limit n)
        × IsNormal 1000 5000 n (normalize_candle_limit n))
      × IsNormal 20 100 n (normalize_market_candle_gap_scan_limit n)
      × (normalize_market_candle_invalid_issue_scan_limit n
          ≡ normalize_market_candle_gap_scan_limit n)
unfolding normalize_candle_limit normalize_market_candle_gap_scan_limit
    normalize_market_candle_invalid_issue_scan_limit
normalize_limits n = ground arith

check_range-span :
    (d from to : ℕ)
    → d * 4999 < 2 ^ 64
    → check_range d from to ≡ ok tt
    → (from ≤ to) × (to - from ≤ d * 4999)
unfolding check_range
check_range-span d from to b h = ground arith

-- A query with both ends that `ValidateCandleQueryRange` accepts does not run backwards, and no
-- more than 5000 open times of the interval lie in it, as long as the span of 5000 candles is
-- within 64 bits.
pub validate_candle_query_range-candles :
    (q : CandleQuery) (d from to : ℕ)
    → interval_duration q.interval ≡ ok d
    → 0 < d
    → d * 4999 < 2 ^ 64
    → q.from ≡ some from
    → q.to ≡ some to
    → validate_candle_query_range q ≡ ok tt
    → (from ≤ to) × ((to - from) / d + 1 ≤ max_candle_limit)
unfolding validate_candle_query_range
validate_candle_query_range-candles q d from to e p b f t h =
    let r = check_range-span d from to b (ground (arith)) in
    (r.0, omega (arith, div-le_of_le-mul d {n = 4999} r.1))

-- Either no instant, or a multiple of the duration.
abbrev pub IsAligned : Option ℕ → ℕ → Type 0
IsAligned none d = Unit
IsAligned (some t) d = t % d ≡ 0

abbrev pub IsOrdered : Option ℕ → Option ℕ → Type 0
IsOrdered none end = Unit
IsOrdered (some s) none = Unit
IsOrdered (some s) (some e) = s < e

unaligned_iff : (t : Option ℕ) (d : ℕ) → 0 < d → (unaligned t d ≡ false) ↔ IsAligned t d
unfolding aligned_to_interval
unaligned_iff none d p = ground arith
unaligned_iff (some t) d p = ground arith

not_before_iff : (s e : Option ℕ) → (not_before s e ≡ false) ↔ IsOrdered s e
not_before_iff none e = ground arith
not_before_iff (some s) none = ground arith
not_before_iff (some s) (some e) = ground arith

-- `ValidateDataSyncTaskWindow` accepts a window exactly when the interval is one of the six and
-- the ends that are given are aligned to it, the start before the end.
pub validate_data_sync_task_window_iff :
    (interval : String) (start end : Option ℕ) (d : ℕ)
    → interval_duration interval ≡ ok d
    → 0 < d
    → (validate_data_sync_task_window interval start end ≡ ok tt) ↔ (
        (is_supported_interval interval ≡ true)
        × IsAligned start d
        × IsAligned end d
        × IsOrdered start end)
unfolding validate_data_sync_task_window
validate_data_sync_task_window_iff interval start end d e p =
    rw e (ground (arith, unaligned_iff start d p, unaligned_iff end d p, not_before_iff start end))
