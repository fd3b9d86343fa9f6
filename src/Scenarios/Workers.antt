-- ===== src/Scenarios/Workers.antt =====
-- A rate limiter and a worker that synchronises one task: internal/exchange, internal/datasync.
use tictick_hi.Base.{
  ℕ, ◌+◌, ◌*◌, ◌≤◌, ◌<◌, ◌≡◌, ◌⊎◌, refl, arith, String, true, false, not, ◌&&◌, Option, none, some,
  List, [], ◌∷◌, Result, ok, err, All, ltb, if◌then◌else◌,
}
use tictick_hi.Base.Int.{pos}
use tictick_hi.Base.Rat.{Rat, rat}
use tictick_hi.Data.Interval.{interval_duration, minute, align_time}
use tictick_hi.Data.Model.{Candle}
use tictick_hi.Data.Gaps.Accounting.{IsMultiple, Opens}
use tictick_hi.Exchange.RateLimit.{
  FixedWindow, Round, granted, reserve, wait, least_weight, reserve_all,
}
use tictick_hi.Exchange.RateLimit.Fixed.{
  IsValid, Request, granted_total, granted_total-le, wait_two_rounds,
}
use tictick_hi.Exchange.RateLimit.Multi.{AreAdded, reserve_all-IsValid}
use tictick_hi.DataSync.Config.{Config}
use tictick_hi.DataSync.Schedule.{DataSyncTask, sync_window, sync_window_bounds}
use tictick_hi.DataSync.Cursor.{next_cursor_open_time}
use tictick_hi.DataSync.Cursor.Contiguous.{has_open_time, next_cursor_open_time_contiguous}
use tictick_hi.DataSync.Errors.{TaskError, temporary_error, is_lock_held, is_lock_error}
use tictick_hi.DataSync.Fetch.{fetch_candles}
use tictick_hi.DataSync.Fetch.Attempts.{IsFetched, fetch_candles_calls}
use tictick_hi.DataSync.Runner.{Environment, run_claimed, sync_task}
use tictick_hi.DataSync.Runner.Settling.{settling, lost_lease, run_claimed_settles}
use tictick_hi.DataSync.Runner.Saving.{IsBalanced, sync_task-IsBalanced}

-- Five requests a minute, of which four are used.
abbrev nearly_full : FixedWindow
nearly_full = record { limit = 5; window = minute; used = 4; reset_at = some minute }

nearly_full-IsValid : IsValid nearly_full
nearly_full-IsValid = record { window_pos = omega arith; within = omega arith }

nearly_full_refuses : (reserve 7 2 nearly_full).2 ≡ false
unfolding reserve
nearly_full_refuses = refl

abbrev three_requests : List Request
three_requests =
    record { now = 1; weight = 2 }
    ∷ record { now = 2; weight = 1 }
    ∷ record { now = 3; weight = 1 }
    ∷ []

granted_total-le_example : 4 + (granted_total nearly_full three_requests).1 ≤ 5
granted_total-le_example =
    granted_total-le minute nearly_full three_requests nearly_full-IsValid refl
      (omega arith, (omega arith, (omega arith, tt)))

abbrev round_at : ℕ → Round
round_at t = record { now = t; cancelled = false }

second_round_in_time : 7 + (reserve 7 (least_weight 2) nearly_full).1 ≤ minute
unfolding reserve least_weight
second_round_in_time = omega arith

two_fits : least_weight 2 ≤ 5
unfolding least_weight
two_fits = omega arith

wait_two_rounds_example : (wait 2 nearly_full (round_at 7 ∷ round_at minute ∷ [])).1 ≡ granted
wait_two_rounds_example =
    wait_two_rounds 2 nearly_full (round_at 7) (round_at minute) nearly_full-IsValid (omega arith)
      two_fits refl second_round_in_time

abbrev two_windows : List FixedWindow
two_windows =
    nearly_full ∷ record { limit = 100; window = 3_600_000_000_000; used = 0; reset_at = none } ∷ []

two_windows-IsValid : All IsValid two_windows
two_windows-IsValid =
    (nearly_full-IsValid, (record { window_pos = omega arith; within = omega arith }, tt))

reserve_all-IsValid_example :
    let (ws', wait_for, done) = reserve_all 7 2 two_windows in
    All IsValid ws'
    × (((done ≡ true) × AreAdded 7 2 two_windows ws')
        ⊎ ((done ≡ false) × AreAdded 7 0 two_windows ws' × (0 < wait_for)))
reserve_all-IsValid_example = reserve_all-IsValid 7 2 two_windows two_windows-IsValid

two_windows_refuse : (reserve_all 7 2 two_windows).2 ≡ false
unfolding reserve_all
two_windows_refuse = refl

two_windows_wait : 7 + (reserve_all 7 2 two_windows).1 ≤ minute
unfolding reserve_all
two_windows_wait = omega arith

abbrev plain_config : Config
plain_config = record {
  worker_id = "";
  lease_ttl = 0;
  heartbeat_interval = 0;
  poll_interval = 0;
  batch_limit = 0;
  overlap_candles = 2;
  default_lookback = 0;
  fetch_retries = 2;
  retry_delay = 0;
  retry_backoff = 0;
  max_retry_backoff = 0;
}

abbrev hour_task : DataSyncTask
hour_task = record {
  id = "t1";
  exchange = "binance";
  symbol = "BTCUSDT";
  interval = "1m";
  start_time = some 0;
  end_time = some 3_600_000_000_000;
  realtime_enabled = false;
  latest_synced_open_time = some minute;
  attempt_count = 1;
}

sync_window_bounds_example :
    let w = sync_window plain_config hour_task minute 600_000_000_000 in
    (w.to ≤ 600_000_000_000) × (w.to ≤ 3_600_000_000_000) × (0 ≤ w.from) × (w.from ≤ minute)
sync_window_bounds_example =
    sync_window_bounds plain_config hour_task minute 600_000_000_000 0 3_600_000_000_000 minute refl
      refl refl (omega arith)

abbrev task_candle : ℕ → Candle
task_candle t = record {
  exchange = "binance";
  symbol = "BTCUSDT";
  interval = "1m";
  open_time = t;
  close_time = t + minute;
  open_price = "1";
  high = "1";
  low = "1";
  close = "1";
  volume = "1";
  is_closed = true;
}

abbrev three_fetched : List Candle
three_fetched =
    task_candle 60_000_000_000 ∷ task_candle 180_000_000_000 ∷ task_candle 120_000_000_000 ∷ []

three_fetched-Opens : Opens minute three_fetched
unfolding align_time
three_fetched-Opens = (refl, (refl, (refl, tt)))

minute-IsMultiple : IsMultiple minute minute
unfolding align_time
minute-IsMultiple = refl

three_fetched_cursor :
    next_cursor_open_time (some minute) minute three_fetched ≡ some 180_000_000_000
unfolding next_cursor_open_time
three_fetched_cursor = refl

next_cursor_open_time_contiguous_example :
    (minute < 180_000_000_000)
    × (has_open_time 180_000_000_000 three_fetched ≡ true)
    × (has_open_time (minute + 1 * minute) three_fetched ≡ true)
next_cursor_open_time_contiguous_example =
    next_cursor_open_time_contiguous minute minute 180_000_000_000 0 three_fetched (omega arith)
      minute-IsMultiple three_fetched-Opens three_fetched_cursor (omega arith)

-- A client that fails once.
abbrev second_time : ℕ → Result TaskError (List Candle)
second_time attempt = if ltb attempt 2 then err (temporary_error 0) else ok three_fetched

abbrev no_interruption : ℕ → Option TaskError
no_interruption delay = none

fetch_candles_calls_example :
    IsFetched second_time no_interruption 3 1 250 (fetch_candles second_time no_interruption 2 250)
fetch_candles_calls_example = fetch_candles_calls second_time no_interruption 2 250

abbrev quiet : Environment
quiet = record {
  now = 600_000_000_000;
  find_client = none;
  supports_locks = true;
  try_lock = ok true;
  unlock = none;
  fetch = second_time;
  wait_for_retry = no_interruption;
  beat = none;
  store = none;
  settle = none;
}

run_claimed_settles_example :
    let (calls, returned) =
      run_claimed quiet plain_config hour_task false (some (temporary_error 0)) in
    (settling calls ≡ (if lost_lease false (temporary_error 0) then 0 else 1))
    × (returned ≡ (
        if not false
          && (not (is_lock_held (temporary_error 0)) && is_lock_error (temporary_error 0))
        then some (temporary_error 0)
        else none))
run_claimed_settles_example =
    run_claimed_settles quiet plain_config hour_task false (temporary_error 0) refl

abbrev task_reader : String → Option Rat
task_reader text = some (rat (pos 1) 0)

task_minute_lem : interval_duration "1m" ≡ ok minute
unfolding interval_duration
task_minute_lem = refl

sync_task-IsBalanced_example :
    (n : ℕ) × IsBalanced task_reader hour_task minute n n
      (sync_task task_reader quiet plain_config hour_task)
sync_task-IsBalanced_example =
    sync_task-IsBalanced task_reader quiet plain_config hour_task minute task_minute_lem
