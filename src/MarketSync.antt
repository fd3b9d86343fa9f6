-- ===== src/MarketSync.antt =====
-- internal/marketsync/runner.go: the worker that keeps the catalogue of instruments. What the
-- repository, the clients and the clock answer is the environment's; the calls made are listed.
pub mod Passes
use tictick_hi.Base.{
  ℕ, zero, suc, ◌+◌, ◌*◌, String, Bool, true, false, not, ◌&&◌, ◌||◌, Option, none, some, List, [],
  ◌∷◌, ◌++◌, map, leb, ◌==◌, if◌then◌else◌, Result, ok, err, text_lt, str_eq,
}
use tictick_hi.Data.Interval.{hour}
use tictick_hi.DataSync.Config.{or_default}
use tictick_hi.DataSync.Errors.{TaskError, other_error, is_temporary_error}

-- Durations are nanoseconds; a duration or count that is not positive is 0 here.
pub record Config : Type 0 where
  pub interval : ℕ
  pub sync_on_start : Bool
  pub fetch_retries : ℕ
  pub retry_delay : ℕ

unfoldable pub new_runner_config : Config → Config
new_runner_config c = record c {
  interval = or_default (6 * hour) c.interval;
  fetch_retries = or_default 2 c.fetch_retries;
  retry_delay = or_default 250_000_000 c.retry_delay;
}

pub insert_id : String → List String → List String
insert_id a [] = a ∷ []
insert_id a (b ∷ bs) = let rest = insert_id a bs in if text_lt b a then b ∷ rest else a ∷ b ∷ bs

-- The exchanges of `NewRunner`: those whose client is not nil, sorted.
unfoldable pub sorted_exchanges : List (String × Bool) → List String
unfolding insert_id
sorted_exchanges [] = []
sorted_exchanges ((id, has_client) ∷ clients) =
    let rest = sorted_exchanges clients in if has_client then insert_id id rest else rest

pub data Call (I : Type 0) : Type 0 where
  locked unlocked : Call I
  fetched : ℕ → Call I
  replaced : List I → Call I
  recorded_failure : TaskError → Call I

-- `I` stands for instruments, and `R` for the result of replacing them. `done` is whether the
-- context is, when a failure is recorded.
pub record Environment (I R : Type 0) : Type 0 where
  pub try_lock : Result TaskError Bool
  pub fetch : ℕ → Result TaskError (List I)
  pub wait_for_retry : ℕ → Option TaskError
  pub replace : List I → Result TaskError R
  pub unlock : Option TaskError
  pub done : Bool

pub record ExchangeResult (R : Type 0) : Type 0 where
  pub exchange : String
  pub result : Option R
  pub error : Option TaskError
  pub skipped : Bool

abbrev pub synced : {R : Type 0} → String → Option R → Option TaskError → ExchangeResult R
synced exchange result error = record {
  exchange = exchange;
  result = result;
  error = error;
  skipped = false;
}

module _ {I R : Type 0} where
  -- The loop of `fetchInstruments`, with the attempts left and the number of this one; the calls of
  -- the client are counted.
  unfoldable pub fetch_from : Environment I R → ℕ → ℕ → ℕ → ℕ → ℕ × Result TaskError (List I)
  fetch_from env zero attempts attempt delay = (0, err other_error)
  fetch_from env (suc left) attempts attempt delay =
      let rest = fetch_from env left attempts (attempt + 1) delay in
      elim (env.fetch attempt) [
        | ok instruments ↦ (1, ok instruments)
        | err e ↦
            if not (is_temporary_error e) || attempt == attempts
            then (1, err e)
            else elim (env.wait_for_retry (delay * attempt)) [
              | some e' ↦ (1, err e')
              | none ↦ (suc rest.0, rest.1)
            ]
      ]

  unfoldable pub fetch_instruments : Environment I R → Config → ℕ × Result TaskError (List I)
  unfolding fetch_from
  fetch_instruments env c =
      fetch_from env (c.fetch_retries + 1) (c.fetch_retries + 1) 1 c.retry_delay

  unfoldable pub record_failure : Environment I R → TaskError → List (Call I)
  record_failure env e = if env.done then [] else recorded_failure e ∷ []

  -- The instruments that were fetched take the place of the old ones.
  unfoldable pub replace_instruments :
      Environment I R → Result TaskError (List I) → List (Call I) × Result TaskError R
  replace_instruments env (ok instruments) = (replaced instruments ∷ [], env.replace instruments)
  replace_instruments env (err e) = ([], err e)

  -- From the unlocking on: its error counts where there is no other.
  unfoldable pub finish_exchange :
      Environment I R
      → String
      → Result TaskError R
      → Option TaskError
      → List (Call I) × ExchangeResult R
  unfolding record_failure
  finish_exchange env exchange (ok r) (some e) = ([], synced exchange (some r) (some e))
  finish_exchange env exchange (ok r) none = ([], synced exchange (some r) none)
  finish_exchange env exchange (err e) u = (record_failure env e, synced exchange none (some e))

  unfoldable pub with_lock : Environment I R → Config → String → List (Call I) × ExchangeResult R
  unfolding fetch_instruments replace_instruments finish_exchange
  with_lock env c exchange =
      let (calls, fetched_instruments) = fetch_instruments env c in
      let (replacing, outcome) = replace_instruments env fetched_instruments in
      let (after, result) = finish_exchange env exchange outcome env.unlock in
      (locked ∷ fetched calls ∷ replacing ++ unlocked ∷ after, result)

  unfoldable pub run_exchange : Environment I R → Config → String → List (Call I) × ExchangeResult R
  unfolding with_lock record_failure
  run_exchange env c exchange = elim env.try_lock [
    | err e ↦ (record_failure env e, synced exchange none (some e))
    | ok free ↦
        if not free
        then ([], record { exchange = exchange; result = none; error = none; skipped = true })
        else with_lock env c exchange
  ]

  -- `RunOnce`, with an environment for each exchange.
  unfoldable pub run_once :
      (String → Environment I R) → Config → List String → List (List (Call I) × ExchangeResult R)
  unfolding run_exchange
  run_once env c [] = []
  run_once env c (exchange ∷ exchanges) =
      run_exchange (env exchange) c exchange ∷ run_once env c exchanges
