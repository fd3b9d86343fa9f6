-- ===== src/Data/Query.antt =====
-- internal/data/candle_query.go and data_sync_validation.go: limits, query ranges, task windows.
pub mod Limits
use tictick_hi.Base.{
  ℕ, ◌+◌, ◌-◌, ◌*◌, ◌%◌, ◌≡◌, String, Bool, true, false, not, ◌&&◌, ◌||◌, Option, none, some, List,
  [], ◌∷◌, ltb, leb, ◌==◌, if◌then◌else◌, Result, ok, err, ◌>>=◌, ◌>>◌, refuse_if, map_err, str_eq,
  codes, is_space,
}
use tictick_hi.Data.Interval.{IntervalError, interval_duration, wrap64}
use tictick_hi.Data.Model.{CandleQuery}

abbrev pub default_candle_limit : ℕ
default_candle_limit = 1000

abbrev pub max_candle_limit : ℕ
max_candle_limit = 5000

abbrev pub default_scan_limit : ℕ
default_scan_limit = 20

abbrev pub max_scan_limit : ℕ
max_scan_limit = 100

-- A limit is an `int`; one that is not positive is 0 here.
unfoldable pub normalize_candle_limit : ℕ → ℕ
normalize_candle_limit limit =
    if leb limit 0
    then default_candle_limit
    else (if ltb max_candle_limit limit then max_candle_limit else limit)

unfoldable pub normalize_market_candle_gap_scan_limit : ℕ → ℕ
normalize_market_candle_gap_scan_limit limit =
    if leb limit 0
    then default_scan_limit
    else (if ltb max_scan_limit limit then max_scan_limit else limit)

unfoldable pub normalize_market_candle_invalid_issue_scan_limit : ℕ → ℕ
normalize_market_candle_invalid_issue_scan_limit limit =
    if leb limit 0
    then default_scan_limit
    else (if ltb max_scan_limit limit then max_scan_limit else limit)

pub data QueryError : Type 0 where
  target_required from_after_to range_too_wide : QueryError
  bad_interval : IntervalError → QueryError

-- `strings.TrimSpace(text) == ""`
unfoldable pub is_blank : List ℕ → Bool
is_blank [] = true
is_blank (c ∷ cs) = is_space c && is_blank cs

unfoldable pub blank : String → Bool
unfolding is_blank
blank text = is_blank (codes text)

unfoldable pub validate_candle_query_target : CandleQuery → Result QueryError (Unit {0})
unfolding blank
validate_candle_query_target q = do
  refuse_if (blank q.exchange || (blank q.symbol || blank q.interval)) target_required
  d ← map_err bad_interval (interval_duration q.interval)
  ok tt

unfoldable pub max_candle_query_span : ℕ → ℕ
max_candle_query_span duration = wrap64 (duration * (max_candle_limit - 1))

-- The tests of `ValidateCandleQueryRange` once both ends are there.
unfoldable pub check_range : ℕ → ℕ → ℕ → Result QueryError (Unit {0})
unfolding max_candle_query_span
check_range duration from to = do
  refuse_if (ltb to from) from_after_to
  refuse_if (ltb (max_candle_query_span duration) (to - from)) range_too_wide

abbrev pub both_ends {ℓ} : {A : Type ℓ} → A → (ℕ → ℕ → A) → Option ℕ → Option ℕ → A
both_ends missing found none to = missing
both_ends missing found (some from) none = missing
both_ends missing found (some from) (some to) = found from to

unfoldable pub validate_candle_query_range : CandleQuery → Result QueryError (Unit {0})
validate_candle_query_range q = do
  duration ← map_err bad_interval (interval_duration q.interval)
  both_ends (ok tt) (check_range duration) q.from q.to

pub data WindowError : Type 0 where
  unsupported_sync_interval start_unaligned end_unaligned start_not_before_end : WindowError
  window_interval : IntervalError → WindowError

unfoldable pub is_supported_interval : String → Bool
is_supported_interval i =
    str_eq i "1m"
    || (str_eq i "5m" || (str_eq i "15m" || (str_eq i "1h" || (str_eq i "4h" || str_eq i "1d"))))

-- A duration of 0 is refused; a negative one does not occur for a supported interval.
unfoldable pub aligned_to_interval : ℕ → ℕ → Bool
aligned_to_interval value interval = if leb interval 0 then false else value % interval == 0

abbrev pub unaligned : Option ℕ → ℕ → Bool
unaligned none duration = false
unaligned (some t) duration = not (aligned_to_interval t duration)

abbrev pub not_before : Option ℕ → Option ℕ → Bool
not_before start end = both_ends false (λ s e. not (ltb s e)) start end

unfoldable pub validate_data_sync_task_window :
    String → Option ℕ → Option ℕ → Result WindowError (Unit {0})
unfolding aligned_to_interval
validate_data_sync_task_window interval start end = do
  refuse_if (not (is_supported_interval interval)) unsupported_sync_interval
  duration ← map_err window_interval (interval_duration interval)
  refuse_if (unaligned start duration) start_unaligned
  refuse_if (unaligned end duration) end_unaligned
  refuse_if (not_before start end) start_not_before_end
