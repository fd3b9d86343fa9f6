-- ===== src/DataSync/Errors.antt =====
-- The errors that the worker tells apart: internal/datasync/runner.go, internal/exchange/errors.go
-- and internal/data/errors.go.
use tictick_hi.Base.{ℕ, zero, suc, Bool, true, false, Option, none, some, ltb}

-- `lock_failed` is `dataSyncExchangeFetchLockError`, which wraps another error. A temporary error
-- carries its `retryAfter`, 0 for none.
pub data TaskError : Type 0 where
  lock_held not_found invalid_state other_error : TaskError
  context_done : TaskError
  lock_failed : TaskError → TaskError
  temporary_error : ℕ → TaskError

-- `errors.Is(err, errDataSyncExchangeFetchLockHeld)`
unfoldable pub is_lock_held : TaskError → Bool
is_lock_held lock_held = true
is_lock_held (lock_failed e) = is_lock_held e
is_lock_held _ = false

-- `errors.As(err, &lockErr)`
unfoldable pub is_lock_error : TaskError → Bool
is_lock_error (lock_failed e) = true
is_lock_error _ = false

unfoldable pub is_data_sync_lease_race : TaskError → Bool
is_data_sync_lease_race not_found = true
is_data_sync_lease_race invalid_state = true
is_data_sync_lease_race (lock_failed e) = is_data_sync_lease_race e
is_data_sync_lease_race _ = false

unfoldable pub is_temporary_error : TaskError → Bool
is_temporary_error (temporary_error retry_after) = true
is_temporary_error (lock_failed e) = is_temporary_error e
is_temporary_error _ = false

-- The second result of `RetryAfter` is whether the delay is positive.
abbrev pub positive_delay : ℕ → Option ℕ
positive_delay zero = none
positive_delay (suc n) = some (suc n)

unfoldable pub retry_after : TaskError → Option ℕ
retry_after (temporary_error delay) = positive_delay delay
retry_after (lock_failed e) = retry_after e
retry_after _ = none

unfoldable pub has_retry_after : TaskError → Bool
unfolding retry_after
has_retry_after e = elim (retry_after e) [ none ↦ false | some delay ↦ ltb 0 delay ]

-- workerlease/heartbeat.go: `IsShutdown`, with whether the context is done.
unfoldable pub is_shutdown : Bool → Option TaskError → Bool
is_shutdown done none = false
is_shutdown done (some e) = done
