-- ===== src/Scenarios/Leases.antt =====
-- One run under a lease, with two heartbeats: internal/workerlease/heartbeat.go.
use tictick_hi.Base.{◌≡◌, refl, String, Bool, true, false, none, [], ◌∷◌, All, str_eq}
use tictick_hi.WorkerLease.{
  Lease, start, run_outcome, working, worked, returned, Reaches, at_once, step_on, beat_answered,
  beat_stopped, work_ended, joined,
}
use tictick_hi.WorkerLease.Joining.{IsAnswered, returned-IsAnswered}

abbrev is_cancellation : String → Bool
is_cancellation e = str_eq e "context canceled"

abbrev begun : Lease String
begun = record {
  canceled = false;
  beating = true;
  reported = none;
  work = working;
  answers = none ∷ [];
}

begun_lem : start is_cancellation none ≡ begun
unfolding start
begun_lem = refl

abbrev done_once : Lease String
done_once = record {
  canceled = true;
  beating = true;
  reported = none;
  work = worked none;
  answers = none ∷ none ∷ [];
}

-- One more heartbeat is answered, and the work ends.
done_once_reached : Reaches is_cancellation (start is_cancellation none) done_once
unfolding start
done_once_reached =
    step_on (step_on at_once (beat_answered begun refl))
      (work_ended (record begun { answers = none ∷ none ∷ [] }) none refl)

abbrev returned_once : Lease String
returned_once = record done_once { beating = false; work = returned none }

returned_once_reached : Reaches is_cancellation (start is_cancellation none) returned_once
unfolding run_outcome
returned_once_reached =
    step_on (step_on done_once_reached (beat_stopped done_once refl refl))
      (joined (record done_once { beating = false }) none refl refl)

returned-IsAnswered_example :
    (returned_once.canceled ≡ true)
    × (returned_once.beating ≡ false)
    × All (IsAnswered is_cancellation) returned_once.answers
returned-IsAnswered_example =
    returned-IsAnswered is_cancellation none returned_once returned_once_reached refl
