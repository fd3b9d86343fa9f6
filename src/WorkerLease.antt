-- ===== src/WorkerLease.antt =====
-- internal/workerlease/heartbeat.go, `RunWithHeartbeat`: work and heartbeats that run side by side,
-- as steps of one state. `E` stands for the errors, and `is_canceled` for
-- `errors.Is(err, context.Canceled)`.
pub mod Joining
use tictick_hi.Base.{Bool, true, false, ◌≡◌, Option, none, some, List, [], ◌∷◌, if◌then◌else◌}

-- The caller: in `work`, past it with what it returned, or returned itself.
pub data Work (E : Type 0) : Type 0 where
  working : Work E
  worked : Option E → Work E
  returned : Option E → Work E

-- `runCtx`, whether the goroutine is still in its loop, the channel `heartbeatErrors` of capacity 1,
-- the caller, and the answers that the heartbeats have had, newest first.
pub record Lease (E : Type 0) : Type 0 where
  pub canceled : Bool
  pub beating : Bool
  pub reported : Option E
  pub work : Work E
  pub answers : List (Option E)

module _ {E : Type 0} (is_canceled : E → Bool) where
  -- The first heartbeat, before the goroutine is started.
  unfoldable pub start : Option E → Lease E
  start none = record {
    canceled = false;
    beating = true;
    reported = none;
    work = working;
    answers = none ∷ [];
  }
  start (some e) = record {
    canceled = true;
    beating = false;
    reported = none;
    work = returned (some e);
    answers = some e ∷ [];
  }

  -- The last `select`: a heartbeat's error takes the place of success and of a cancellation.
  unfoldable pub run_outcome : Option E → Option E → Option E
  run_outcome work_err none = work_err
  run_outcome none (some heartbeat_err) = some heartbeat_err
  run_outcome (some work_err) (some heartbeat_err) =
      if is_canceled work_err then some heartbeat_err else some work_err

  -- `select { case heartbeatErrors <- err: default: }`
  unfoldable pub send : Option E → E → Option E
  send none e = some e
  send (some old) e = some old

  abbrev pub after_work : Lease E → Option E → Lease E
  after_work l r = record l { canceled = true; work = worked r }

  pub data Step : Lease E → Lease E → Type 0 where
    parent_canceled : (l : Lease E) → Step l (record l { canceled = true })
    beat_answered :
        (l : Lease E) → l.beating ≡ true → Step l (record l { answers = none ∷ l.answers })
    beat_failed :
        (l : Lease E) (e : E)
        → l.beating ≡ true
        → Step l (record l {
          canceled = true;
          beating = false;
          reported = send l.reported e;
          answers = some e ∷ l.answers;
        })
    beat_stopped :
        (l : Lease E) → l.beating ≡ true → l.canceled ≡ true → Step l (record l { beating = false })
    work_ended : (l : Lease E) (r : Option E) → l.work ≡ working → Step l (after_work l r)
    joined :
        (l : Lease E) (r : Option E)
        → l.work ≡ worked r
        → l.beating ≡ false
        → Step l (record l { work = returned (run_outcome r l.reported) })

  pub data Reaches (l : Lease E) : Lease E → Type 0 where
    at_once : Reaches l l
    step_on : {m n : Lease E} → Reaches l m → Step m n → Reaches l n
