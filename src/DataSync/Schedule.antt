-- ===== src/DataSync/Schedule.antt =====
-- internal/datasync/runner.go: the task, its window, and when it is complete.
use tictick_hi.Base.{
  ℕ, ◌+◌, ◌-◌, ◌*◌, ◌≤◌, ◌≡◌, arith, Bool, true, false, not, ◌||◌, String, Option, none, some, ltb,
  if◌then◌else◌,
}
use tictick_hi.DataSync.Config.{Config}

-- The fields of `data.DataSyncTask` that the worker reads.
pub record DataSyncTask : Type 0 where
  pub id : String
  pub exchange : String
  pub symbol : String
  pub interval : String
  pub start_time : Option ℕ
  pub end_time : Option ℕ
  pub realtime_enabled : Bool
  pub latest_synced_open_time : Option ℕ
  pub attempt_count : ℕ

pub record SyncWindow : Type 0 where
  pub from : ℕ
  pub to : ℕ

-- `task.EndTime != nil && task.EndTime.Before(to)`
abbrev pub window_end : ℕ → Option ℕ → ℕ
window_end now none = now
window_end now (some end) = if ltb end now then end else now

abbrev pub at_least : Option ℕ → ℕ → ℕ
at_least none t = t
at_least (some start) t = if ltb t start then start else t

-- An instant before the epoch is taken for the epoch.
abbrev pub window_start : ℕ → ℕ → ℕ → Option ℕ → Option ℕ → ℕ
window_start to lookback overlap none none = to - lookback
window_start to lookback overlap (some start) none = start
window_start to lookback overlap start (some latest) = at_least start (latest - overlap)

unfoldable pub sync_window : Config → DataSyncTask → ℕ → ℕ → SyncWindow
sync_window config task interval now =
    let to = window_end now task.end_time in
    record {
      from =
          window_start to config.default_lookback (config.overlap_candles * interval)
            task.start_time task.latest_synced_open_time;
      to = to;
    }

abbrev pub is_some {ℓ} : {A : Type ℓ} → Option A → Bool
is_some none = false
is_some (some a) = true

-- `!nextOpen.Before(end)` for the open time after `latest`.
abbrev pub reaches : ℕ → ℕ → ℕ → Bool
reaches interval latest end = not (ltb (latest + interval) end)

abbrev pub completed_by : ℕ → Option ℕ → Option ℕ → Bool → Bool → Bool
completed_by interval none cursor empty_batch has_closed =
    empty_batch || (is_some cursor || has_closed)
completed_by interval (some end) none empty_batch has_closed = empty_batch
completed_by interval (some end) (some cursor) empty_batch has_closed = reaches interval cursor end

unfoldable pub is_completed : DataSyncTask → ℕ → Option ℕ → Bool → Bool → Bool
is_completed task interval cursor empty_batch has_closed =
    if task.realtime_enabled
    then false
    else completed_by interval task.end_time cursor empty_batch has_closed

abbrev pub synced_through : ℕ → Option ℕ → Option ℕ → Bool
synced_through interval none latest = false
synced_through interval (some end) none = false
synced_through interval (some end) (some latest) = reaches interval latest end

unfoldable pub is_already_synced_through_end : DataSyncTask → ℕ → Bool
is_already_synced_through_end task interval =
    if task.realtime_enabled
    then false
    else synced_through interval task.end_time task.latest_synced_open_time

-- For a task with a start, an end and a latest synced open time at or after the start, the window
-- stays within the task and the present, and overlaps what is synced: it never reaches past the
-- present or the end, never starts before the start, and starts at the latest synced open time or
-- before it.
pub sync_window_bounds :
    (c : Config) (t : DataSyncTask) (interval now start end latest : ℕ)
    → t.start_time ≡ some start
    → t.end_time ≡ some end
    → t.latest_synced_open_time ≡ some latest
    → start ≤ latest
    → let w = sync_window c t interval now in
      (w.to ≤ now) × (w.to ≤ end) × (start ≤ w.from) × (w.from ≤ latest)
unfolding sync_window
sync_window_bounds c t i n start end latest s e l h = ground arith

-- A task that `isCompleted` closes on a cursor is one that `isAlreadySyncedThroughEnd` recognises
-- when it is claimed again with that cursor, if it has an end; a realtime task is never closed.
pub is_completed_again :
    (t : DataSyncTask) (interval cursor end : ℕ) (empty has_closed : Bool)
    → t.end_time ≡ some end
    → is_completed t interval (some cursor) empty has_closed
      ≡ is_already_synced_through_end (record t { latest_synced_open_time = some cursor }) interval
unfolding is_completed is_already_synced_through_end
is_completed_again t i k e em hc p = ground arith
