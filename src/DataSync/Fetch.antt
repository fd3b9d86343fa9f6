-- ===== src/DataSync/Fetch.antt =====
-- internal/datasync/runner_fetch.go: one fetch with its retries.
pub mod Attempts
use tictick_hi.Base.{
  ℕ, zero, suc, ◌+◌, ◌*◌, Bool, true, false, not, ◌||◌, Option, none, some, List, [], ◌∷◌, ◌==◌,
  if◌then◌else◌, Result, ok, err,
}
use tictick_hi.Data.Model.{Candle}
use tictick_hi.DataSync.Errors.{TaskError, other_error, is_temporary_error, has_retry_after}

-- The client and the wait are the environment's: the answer to the attempt with a number, and the
-- error, if any, that ends the wait of a length after it.
module _ (fetch : ℕ → Result TaskError (List Candle)) (wait_for_retry : ℕ → Option TaskError) where
  -- The loop, with the attempts left and the number of this one. The first result counts the
  -- calls of the client.
  pub fetch_from : ℕ → ℕ → ℕ → ℕ → ℕ × Result TaskError (List Candle)
  fetch_from zero attempts attempt delay = (0, err other_error)
  fetch_from (suc left) attempts attempt delay =
      let rest = fetch_from left attempts (attempt + 1) delay in
      elim (fetch attempt) [
        | ok candles ↦ (1, ok candles)
        | err e ↦
            if not (is_temporary_error e) || (attempt == attempts || has_retry_after e)
            then (1, err e)
            else elim (wait_for_retry (delay * attempt)) [
              | some e' ↦ (1, err e')
              | none ↦ (suc rest.0, rest.1)
            ]
      ]

  -- `FetchRetries + 1` attempts, numbered from 1.
  unfoldable pub fetch_candles : ℕ → ℕ → ℕ × Result TaskError (List Candle)
  unfolding fetch_from
  fetch_candles fetch_retries retry_delay =
      fetch_from (fetch_retries + 1) (fetch_retries + 1) 1 retry_delay
