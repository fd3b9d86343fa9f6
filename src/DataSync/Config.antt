-- ===== src/DataSync/Config.antt =====
-- internal/datasync/runner.go: `Config`, the defaults of `NewRunner`, and the retry delays.
-- Durations are nanoseconds; a duration or count that is not positive is 0 here.
pub mod Backoff
use tictick_hi.Base.{
  ℕ, zero, suc, ◌+◌, ◌-◌, ◌*◌, ◌/◌, String, Option, none, some, ltb, leb, if◌then◌else◌, str_eq,
}
use tictick_hi.Data.Interval.{minute}

abbrev pub second : ℕ
second = 1_000_000_000

pub record Config : Type 0 where
  pub worker_id : String
  pub lease_ttl : ℕ
  pub heartbeat_interval : ℕ
  pub poll_interval : ℕ
  pub batch_limit : ℕ
  pub overlap_candles : ℕ
  pub default_lookback : ℕ
  pub fetch_retries : ℕ
  pub retry_delay : ℕ
  pub retry_backoff : ℕ
  pub max_retry_backoff : ℕ

-- `if value <= 0 { value = fallback }`
abbrev pub or_default : ℕ → ℕ → ℕ
or_default fallback value = if leb value 0 then fallback else value

unfoldable pub new_runner_config : Config → Config
new_runner_config c =
    let lease = or_default (30 * second) c.lease_ttl in
    let backoff = or_default (30 * second) c.retry_backoff in
    let max_backoff = or_default (5 * minute) c.max_retry_backoff in
    record {
      worker_id = if str_eq c.worker_id "" then "sync-worker" else c.worker_id;
      lease_ttl = lease;
      heartbeat_interval = or_default (10 * second) (or_default (lease / 3) c.heartbeat_interval);
      poll_interval = or_default (10 * second) c.poll_interval;
      batch_limit = or_default 500 c.batch_limit;
      overlap_candles = c.overlap_candles;
      default_lookback = or_default (500 * minute) c.default_lookback;
      fetch_retries = or_default 2 c.fetch_retries;
      retry_delay = or_default 250_000_000 c.retry_delay;
      retry_backoff = backoff;
      max_retry_backoff = if ltb max_backoff backoff then backoff else max_backoff;
    }

-- The loop of `boundedExponentialBackoff`, with the rounds left.
unfoldable pub double_up_to : ℕ → ℕ → ℕ → ℕ
double_up_to zero max_delay delay = if ltb max_delay delay then max_delay else delay
double_up_to (suc rounds) max_delay delay =
    let rest = double_up_to rounds max_delay (delay * 2) in
    if leb (max_delay / 2) delay then max_delay else rest

unfoldable pub bounded_exponential_backoff : ℕ → ℕ → ℕ → ℕ
unfolding double_up_to
bounded_exponential_backoff base max_delay attempt =
    if leb attempt 1 then base else double_up_to (attempt - 1) max_delay base

abbrev pub longer : ℕ → Option ℕ → ℕ
longer delay none = delay
longer delay (some retry_after) = if ltb delay retry_after then retry_after else delay

-- `retry_after` is what `exchange.RetryAfter` finds in the error.
unfoldable pub next_attempt_at : Config → ℕ → ℕ → Option ℕ → ℕ
unfolding bounded_exponential_backoff
next_attempt_at config now attempt_count retry_after =
    let attempt = if ltb attempt_count 1 then 1 else attempt_count in
    now
    + longer (bounded_exponential_backoff config.retry_backoff config.max_retry_backoff attempt)
        retry_after
