-- ===== src/DataSync/Runner/Settling.antt =====
-- internal/datasync/runner.go: a task that failed is given up exactly once.
use tictick_hi.Base.{ℕ, suc, ◌≡◌, arith, Bool, not, ◌&&◌, none, some, List, [], ◌∷◌, if◌then◌else◌}
use tictick_hi.DataSync.Config.{Config}
use tictick_hi.DataSync.Schedule.{DataSyncTask}
use tictick_hi.DataSync.Errors.{TaskError, is_lock_held, is_lock_error, is_data_sync_lease_race}
use tictick_hi.DataSync.Runner.{
  Call, release_on_shutdown, release_after_skip, release_after_lock_error, record_retry,
  mark_failed, Environment, run_claimed,
}

-- The calls that end the worker's hold of the task.
abbrev pub settling : List Call → ℕ
settling [] = 0
settling (release_on_shutdown ∷ cs) = suc (settling cs)
settling (release_after_skip ∷ cs) = suc (settling cs)
settling (release_after_lock_error ∷ cs) = suc (settling cs)
settling (record_retry t ∷ cs) = suc (settling cs)
settling (mark_failed ∷ cs) = suc (settling cs)
settling (_ ∷ cs) = settling cs

-- The lease was lost to another worker, and nothing else is the matter.
abbrev pub lost_lease : Bool → TaskError → Bool
lost_lease done e =
    not done && (not (is_lock_held e) && (not (is_lock_error e) && is_data_sync_lease_race e))

-- A task that failed is released, rescheduled or marked as failed by exactly one call; by none if
-- its lease was lost and the worker neither shuts down nor failed on the exchange lock. If the
-- repository takes that call, `RunOnce` returns no error, but for a failure of the exchange lock
-- itself.
pub run_claimed_settles :
    (env : Environment) (config : Config) (task : DataSyncTask) (done : Bool) (e : TaskError)
    → env.settle ≡ none
    → let (calls, returned) = run_claimed env config task done (some e) in
      (settling calls ≡ (if lost_lease done e then 0 else 1))
      × (returned
          ≡ (if not done && (not (is_lock_held e) && is_lock_error e) then some e else none))
unfolding run_claimed
run_claimed_settles env config task done e s = ground arith
