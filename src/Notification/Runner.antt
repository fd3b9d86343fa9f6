-- ===== src/Notification/Runner.antt =====
-- internal/notification/runner.go: one pass of the delivery worker. `E` stands for the errors; what
-- the repository, the provider, the sleep and the clock answer is the environment's.
pub mod Retries
pub mod Settling
pub mod Spacing
use tictick_hi.Base.{
  ℕ, ◌+◌, ◌-◌, ◌*◌, ◌^◌, String, Bool, true, false, ◌||◌, Option, none, some, List, [], ◌∷◌, ◌++◌,
  ltb, leb, if◌then◌else◌, Result, ok, err, str_eq,
}
use tictick_hi.Data.Interval.{minute, wrap64}
use tictick_hi.DataSync.Config.{second, or_default}

-- Durations are nanoseconds; one that is not positive is 0 here.
pub record Config : Type 0 where
  pub worker_id : String
  pub lease_ttl : ℕ
  pub poll_interval : ℕ
  pub retry_delay : ℕ
  pub max_retry_delay : ℕ
  pub provider_min_interval : ℕ

-- The defaults of `NewRunner`.
unfoldable pub new_runner_config : Config → Config
new_runner_config c = record {
  worker_id = if str_eq c.worker_id "" then "notify-worker" else c.worker_id;
  lease_ttl = or_default (30 * second) c.lease_ttl;
  poll_interval = or_default (10 * second) c.poll_interval;
  retry_delay = or_default (30 * second) c.retry_delay;
  max_retry_delay = or_default (5 * minute) c.max_retry_delay;
  provider_min_interval = c.provider_min_interval;
}

pub record NotificationDelivery : Type 0 where
  pub id : String
  pub provider : String
  pub attempt_count : ℕ
  pub max_attempts : ℕ

-- The delays are int64: a product that is 0 or negative as such counts as none.
unfoldable pub retry_product : Config → ℕ → ℕ
retry_product c attempts =
    let delay = wrap64 (c.retry_delay * attempts) in
    if leb delay 0 || leb (2 ^ 63) delay then c.retry_delay else delay

unfoldable pub next_attempt_at : Config → NotificationDelivery → ℕ → Option ℕ
unfolding retry_product
next_attempt_at c d now =
    let delay = retry_product c d.attempt_count in
    if leb d.max_attempts d.attempt_count
    then none
    else some (now + (if ltb c.max_retry_delay delay then c.max_retry_delay else delay))

-- How long `throttleProvider` sleeps, if it does; `last` is when the last delivery ended.
unfoldable pub throttle_wait : Config → Option ℕ → ℕ → ℕ
throttle_wait c none now = 0
throttle_wait c (some last) now = last + c.provider_min_interval - now

pub data Event : Type 0 where
  slept delivering : ℕ → Event
  released : Event
  marked_failed : Option ℕ → ℕ → Event
  marked_delivered : ℕ → String → ℕ → Event

-- The clock is read when the delivery is throttled, when the provider is called, when it returns
-- and when a failure is marked. A message id stands for the provider's result.
pub record Environment (E : Type 0) : Type 0 where
  pub throttled_at : ℕ
  pub started_at : ℕ
  pub finished_at : ℕ
  pub failed_at : ℕ
  pub no_provider : Option E
  pub sleep : ℕ → Option E
  pub answer : Result E String
  pub done : Bool
  pub settle : Option E

-- What `deliver` returns, with the time that it keeps for the next delivery.
pub record Delivered (E : Type 0) : Type 0 where
  pub events : List Event
  pub delivered_at : ℕ
  pub duration : ℕ
  pub result : Result E String
  pub last : Option ℕ

pub record Outcome (E : Type 0) : Type 0 where
  pub processed : Bool
  pub error : Option E
  pub events : List Event
  pub last : Option ℕ

module _ {E : Type 0} where
  abbrev pub undelivered : List Event → E → Option ℕ → Delivered E
  undelivered events e last = record {
    events = events;
    delivered_at = 0;
    duration = 0;
    result = err e;
    last = last;
  }

  unfoldable pub call_provider : Environment E → List Event → Delivered E
  call_provider env events = record {
    events = events ++ delivering env.started_at ∷ [];
    delivered_at = env.finished_at;
    duration = env.finished_at - env.started_at;
    result = env.answer;
    last = some env.finished_at;
  }

  -- `sleepContext` returns at once on a wait that is not positive, which is not made.
  unfoldable pub throttled : Environment E → ℕ → Option ℕ → Delivered E
  unfolding call_provider
  throttled env wait last = if leb wait 0 then call_provider env [] else (elim (env.sleep wait) [
    | some e ↦ undelivered (slept wait ∷ []) e last
    | none ↦ call_provider env (slept wait ∷ [])
  ])

  unfoldable pub deliver : Config → Environment E → Option ℕ → Delivered E
  unfolding throttled
  deliver c env last = elim env.no_provider [
    | some e ↦ undelivered [] e last
    | none ↦
        if leb c.provider_min_interval 0
        then throttled env 0 last
        else throttled env (throttle_wait c last env.throttled_at) last
  ]

  -- A delivery that was not made is released on a shutdown and marked as failed otherwise, and one
  -- that was made is marked as delivered.
  unfoldable pub settled_as :
      Config → Environment E → NotificationDelivery → Delivered E → Result E String → Event
  settled_as c env d r (ok message_id) = marked_delivered r.delivered_at message_id r.duration
  settled_as c env d r (err e) =
      if env.done then released else marked_failed (next_attempt_at c d env.failed_at) r.duration

  unfoldable pub settle_delivery :
      Config → Environment E → NotificationDelivery → Delivered E → Outcome E
  unfolding settled_as
  settle_delivery c env d r = record {
    processed = true;
    error = env.settle;
    events = r.events ++ settled_as c env d r r.result ∷ [];
    last = r.last;
  }

  unfoldable pub run_one :
      Config → Environment E → Result E (Option NotificationDelivery) → Option ℕ → Outcome E
  unfolding deliver settle_delivery
  run_one c env (err e) last = record {
    processed = false;
    error = some e;
    events = [];
    last = last;
  }
  run_one c env (ok none) last = record {
    processed = false;
    error = none;
    events = [];
    last = last;
  }
  run_one c env (ok (some d)) last = settle_delivery c env d (deliver c env last)
