-- ===== src/DataSync/Runner.antt =====
-- internal/datasync/runner.go and lease_race.go: one pass of the worker. What the repository, the
-- exchange and the clock answer is the environment's; the calls made are listed in order.
pub mod Settling
pub mod Saving
use tictick_hi.Base.{
  ℕ, ◌+◌, Bool, true, false, not, ◌&&◌, ◌||◌, String, Option, none, some, List, [], ◌∷◌, ◌++◌, ltb,
  if◌then◌else◌, Result, ok, err,
}
use tictick_hi.Base.Rat.{Rat}
use tictick_hi.Data.Interval.{interval_duration}
use tictick_hi.Data.Model.{Candle}
use tictick_hi.Data.Validation.{validate_candle_series_for_target}
use tictick_hi.DataSync.Config.{Config, next_attempt_at}
use tictick_hi.DataSync.Schedule.{
  DataSyncTask, SyncWindow, sync_window, is_completed, is_already_synced_through_end,
}
use tictick_hi.DataSync.Cursor.{next_cursor_open_time}
use tictick_hi.DataSync.Errors.{
  TaskError, lock_held, lock_failed, other_error, is_lock_held, is_lock_error,
  is_data_sync_lease_race, is_temporary_error, retry_after,
}
use tictick_hi.DataSync.Fetch.{fetch_candles}

-- data/candle_filter.go
unfoldable pub closed_candles : List Candle → List Candle
closed_candles [] = []
closed_candles (c ∷ cs) = let rest = closed_candles cs in if c.is_closed then c ∷ rest else rest

pub record DataSyncResult : Type 0 where
  pub task_id : String
  pub candles : List Candle
  pub last_open_time : Option ℕ
  pub completed : Bool

pub data Call : Type 0 where
  lock_fetch unlock_fetch heartbeat : Call
  fetched : ℕ → Call
  save : DataSyncResult → Call
  release_on_shutdown record_skip release_after_skip release_after_lock_error : Call
  record_retry : ℕ → Call
  mark_failed : Call

-- The answers: `none` where a call succeeds.
pub record Environment : Type 0 where
  pub now : ℕ
  pub find_client : Option TaskError
  pub supports_locks : Bool
  pub try_lock : Result TaskError Bool
  pub unlock : Option TaskError
  pub fetch : ℕ → Result TaskError (List Candle)
  pub wait_for_retry : ℕ → Option TaskError
  pub beat : Option TaskError
  pub store : Option TaskError
  pub settle : Option TaskError

abbrev pub Outcome : Type 0
Outcome = List Call × Option TaskError

-- A call that is made first.
abbrev pub after_call : Call → Outcome → Outcome
after_call c (cs, e) = (c ∷ cs, e)

unfoldable pub save_result : Environment → DataSyncResult → Outcome
save_result env r = (save r ∷ [], env.store)

abbrev pub is_empty : List Candle → Bool
is_empty [] = true
is_empty (c ∷ cs) = false

abbrev pub batch_result : DataSyncTask → ℕ → List Candle → List Candle → Option ℕ → DataSyncResult
batch_result task duration candles closed cursor = record {
  task_id = task.id;
  candles = closed;
  last_open_time = cursor;
  completed = is_completed task duration cursor (is_empty candles) (not (is_empty closed));
}

abbrev pub window_is_empty : SyncWindow → Bool
window_is_empty w = not (ltb w.from w.to)

module _ (set_string : String → Option Rat) where
  -- From the fetched candles on.
  unfoldable pub store_batch : Environment → DataSyncTask → ℕ → List Candle → Outcome
  unfolding save_result
  store_batch env task duration candles =
      let closed = closed_candles candles in
      elim (validate_candle_series_for_target set_string closed task.exchange task.symbol
        task.interval) [
          | err e ↦ ([], some other_error)
          | ok u ↦ elim env.beat [
            | some e ↦ (heartbeat ∷ [], some e)
            | none ↦ after_call heartbeat (
                save_result env (
                  batch_result task duration candles closed
                    (next_cursor_open_time task.latest_synced_open_time duration closed)))
          ]
        ]

  -- With the exchange lock held.
  unfoldable pub fetch_batch : Environment → Config → DataSyncTask → ℕ → Outcome
  unfolding store_batch
  fetch_batch env config task duration =
      let (calls, answer) =
        fetch_candles env.fetch env.wait_for_retry config.fetch_retries config.retry_delay in
      after_call (fetched calls) (
        after_call unlock_fetch (elim env.unlock [
          | some e ↦ ([], some (lock_failed e))
          | none ↦ elim answer [
            | err e ↦ ([], some e)
            | ok candles ↦ store_batch env task duration candles
          ]
        ]))

  unfoldable pub lock_and_fetch : Environment → Config → DataSyncTask → ℕ → Outcome
  unfolding fetch_batch
  lock_and_fetch env config task duration =
      if not env.supports_locks then ([], some (lock_failed other_error)) else (elim env.try_lock [
        | err e ↦ ([], some (lock_failed e))
        | ok locked ↦
            if not locked
            then ([], some lock_held)
            else (after_call lock_fetch (fetch_batch env config task duration))
      ])

  unfoldable pub sync_task : Environment → Config → DataSyncTask → Outcome
  unfolding lock_and_fetch save_result
  sync_task env config task = elim (interval_duration task.interval) [
    | err e ↦ ([], some other_error)
    | ok duration ↦
        if is_already_synced_through_end task duration
        then save_result env
            (record { task_id = task.id; candles = []; last_open_time = none; completed = true })
        else (elim env.find_client [
          | some e ↦ ([], some e)
          | none ↦
              if window_is_empty (sync_window config task duration env.now)
              then save_result env (record {
                task_id = task.id;
                candles = [];
                last_open_time = none;
                completed = not task.realtime_enabled;
              })
              else lock_and_fetch env config task duration
        ])
  ]

-- The answer to the call that gives the task up, where losing the lease is no error.
unfoldable pub unless_race : Option TaskError → Option TaskError
unless_race none = none
unless_race (some e) = if is_data_sync_lease_race e then none else some e

-- `releaseDataSyncTaskAfterExchangeFetchLockError`, and then the lock error is returned.
unfoldable pub or_lock_error : TaskError → Option TaskError → Option TaskError
or_lock_error e none = some e
or_lock_error e (some release_error) = some release_error

-- The branches of `RunOnce` for a task that failed with `e`; `done` is whether the context is.
unfoldable pub settle_failure : Environment → Config → DataSyncTask → Bool → TaskError → Outcome
unfolding unless_race or_lock_error
settle_failure env config task done e =
    if done
    then (release_on_shutdown ∷ [], unless_race env.settle)
    else (if is_lock_held e
        then (
          (if env.supports_locks
              then record_skip ∷ release_after_skip ∷ []
              else release_after_skip ∷ []),
          unless_race env.settle,
        )
        else (if is_lock_error e
            then (release_after_lock_error ∷ [], or_lock_error e (unless_race env.settle))
            else (if is_data_sync_lease_race e
                then ([], none)
                else (if is_temporary_error e
                    then (
                      record_retry
                            (next_attempt_at config env.now task.attempt_count (retry_after e))
                          ∷ [],
                      unless_race env.settle,
                    )
                    else (mark_failed ∷ [], unless_race env.settle)))))

-- `RunOnce` from the claim on: `work` is what the run under a heartbeat ended with.
unfoldable pub run_claimed : Environment → Config → DataSyncTask → Bool → Option TaskError → Outcome
unfolding settle_failure
run_claimed env config task done none = ([], none)
run_claimed env config task done (some e) = settle_failure env config task done e

unfoldable pub run_once :
    Environment
    → Config
    → Bool
    → Result TaskError (Option DataSyncTask)
    → (DataSyncTask → Option TaskError)
    → Outcome
unfolding run_claimed
run_once env config done (err e) work = ([], some e)
run_once env config done (ok none) work = ([], none)
run_once env config done (ok (some task)) work = run_claimed env config task done (work task)
