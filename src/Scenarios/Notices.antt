-- ===== src/Scenarios/Notices.antt =====
-- A channel, deliveries and a pass over an exchange: internal/notification and internal/marketsync.
use tictick_hi.Base.{
  ℕ, zero, suc, ◌+◌, ◌≤◌, ◌<◌, String, Bool, true, false, ◌≡◌, refl, ◌⊎◌, Option, none, some, List,
  [], ◌∷◌, ◌++◌, Result, ok, err, arith, str_eq, trim_space, has_prefix,
}
use tictick_hi.Notification.Texts.{valid_env_name, is_env_body}
use tictick_hi.Notification.Targets.{
  Outside, validate_provider_target, validate_provider_target_syntax, parse_feishu_target,
  parse_target_url, required_env, optional_env,
}
use tictick_hi.Notification.Targets.Agreement.{validate_provider_target-syntax}
use tictick_hi.Notification.Runner.{
  Config, NotificationDelivery, Environment, Event, next_attempt_at, run_one, deliver, throttled,
  call_provider, settle_delivery, throttle_wait,
}
use tictick_hi.Notification.Runner.Retries.{next_attempt_at_bounds}
use tictick_hi.Notification.Runner.Settling.{settlements, IsSettling, run_one_settles}
use tictick_hi.Notification.Runner.Spacing.{AreSpaced, AllForward, run_one-AreSpaced}
use tictick_hi.DataSync.Errors.{TaskError, lock_held, temporary_error, other_error}
use tictick_hi.MarketSync as Market
use tictick_hi.MarketSync.Passes.{IsPass, run_exchange-IsPass}

-- Every text is the URL `feishu://bot?url_env=HOOK`, and the variable holds a URL.
abbrev outside : Outside
outside = record {
  parse_url = λ s. some (record {
    scheme = "feishu";
    host = "bot";
    hostname = "bot";
    port = "";
    query = λ name. if_key (str_eq name "url_env");
  });
  lookup_env = λ name. some "https://hooks";
  split = λ s. s ∷ [];
  join_port = λ host port. host;
}
  where
    if_key : Bool → String
    if_key true = "HOOK"
    if_key false = ""

shown : str_eq (trim_space "feishu://bot?url_env=HOOK") "" ≡ false
unfolding str_eq trim_space
shown = refl

accepted : validate_provider_target outside "feishu" "feishu://bot?url_env=HOOK" ≡ ok tt
unfolding validate_provider_target parse_feishu_target parse_target_url required_env optional_env
    valid_env_name is_env_body str_eq trim_space has_prefix
accepted = refl

validate_provider_target-syntax_example :
    validate_provider_target_syntax outside "feishu" "feishu://bot?url_env=HOOK" ≡ ok tt
validate_provider_target-syntax_example =
    validate_provider_target-syntax outside "feishu" "feishu://bot?url_env=HOOK" shown accepted

abbrev config : Config
config = record {
  worker_id = "w";
  lease_ttl = 30;
  poll_interval = 10;
  retry_delay = 30;
  max_retry_delay = 100;
  provider_min_interval = 50;
}

abbrev delivery : NotificationDelivery
delivery = record { id = "n"; provider = "feishu"; attempt_count = 2; max_attempts = 5 }

next_attempt_at_bounds_example :
    ((5 ≤ 2) × (next_attempt_at config delivery 1000 ≡ none))
    ⊎ ((2 < 5)
        × ((next : ℕ) × (next_attempt_at config delivery 1000 ≡ some next)
            × (1000 < next)
            × (next ≤ 1000 + 100)))
next_attempt_at_bounds_example =
    next_attempt_at_bounds config delivery 1000 (omega arith) (omega arith)

-- A call of the provider at a time after a sleep, which takes three.
abbrev calling : ℕ → ℕ → Result TaskError String → Environment TaskError
calling from at answer = record {
  throttled_at = from;
  started_at = at;
  finished_at = at + 3;
  failed_at = at + 4;
  no_provider = none;
  sleep = λ n. none;
  answer = answer;
  done = false;
  settle = none;
}

run_one_settles_example :
    (before : List Event) × (final : Event) × ((run_one config
        (calling 100 120 (ok "m"))
        (ok (some delivery))
        (some 70)).events
      ≡ before ++ final ∷ [])
    × (settlements (run_one config (calling 100 120 (ok "m")) (ok (some delivery)) (some 70)).events
        ≡ 1)
    × IsSettling config (calling 100 120 (ok "m")) delivery before final
run_one_settles_example = run_one_settles config (calling 100 120 (ok "m")) delivery (some 70)

abbrev passes : List (Environment TaskError × Result TaskError (Option NotificationDelivery))
passes =
    (calling 10 10 (ok "m"), ok (some delivery))
    ∷ (calling 20 63 (err other_error), ok (some delivery))
    ∷ []

forward : AllForward config passes none none
unfolding run_one deliver throttled call_provider settle_delivery throttle_wait
forward = (
  record {
    began = omega arith;
    slept = λ h. omega arith;
    direct = omega arith;
    ended = omega arith;
  },
  (
    record {
      began = omega arith;
      slept = λ h. omega arith;
      direct = omega arith;
      ended = omega arith;
    },
    tt,
  ),
)

run_one-AreSpaced_example : AreSpaced config passes none none
run_one-AreSpaced_example = run_one-AreSpaced config passes none forward

-- A client that answers at the second attempt.
abbrev market : Market.Environment String ℕ
market = record {
  try_lock = ok true;
  fetch = λ n. answer n;
  wait_for_retry = λ d. none;
  replace = λ is. ok 1;
  unlock = some lock_held;
  done = false;
}
  where
    answer : ℕ → Result TaskError (List String)
    answer (suc zero) = err (temporary_error 0)
    answer n = ok ("BTCUSDT" ∷ [])

abbrev market_config : Market.Config
market_config = record { interval = 10; sync_on_start = true; fetch_retries = 2; retry_delay = 1 }

run_exchange-IsPass_example :
    IsPass market market_config "binance"
      (Market.run_exchange market market_config "binance").0
      (Market.run_exchange market market_config "binance").1
run_exchange-IsPass_example = run_exchange-IsPass market market_config "binance"
