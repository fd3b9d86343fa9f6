-- ===== src/DataSync/Fetch/Attempts.antt =====
-- internal/datasync/runner_fetch.go: how often the client is called, and whose answer is returned.
use tictick_hi.Base.{
  ℕ, zero, suc, ◌+◌, ◌-◌, ◌*◌, ◌≤◌, ◌<◌, ◌≡◌, refl, sym, ◌⊎◌, inl, inr, arith, Bool, not, ◌||◌,
  ◌==◌, Option, some, List, Result, ok, err, Result-cases, Option-cases, Bool-cases,
}
use native.Mathlib.Numerals.{add-one}
use tictick_hi.Data.Model.{Candle}
use tictick_hi.DataSync.Errors.{TaskError, is_temporary_error, has_retry_after}
use tictick_hi.DataSync.Fetch.{fetch_from, fetch_candles}

module _ (fetch : ℕ → Result TaskError (List Candle)) (wait_for_retry : ℕ → Option TaskError) where
  -- The calls were numbered from `attempt` to `last`, at most `left` of them, and the result is the
  -- client's last answer or the error that ended the wait after it.
  pub record IsFetched (left attempt delay : ℕ) (out : ℕ × Result TaskError (List Candle))
      : Type 0 where
    pub last : ℕ
    pub some_call : 0 < out.0
    pub calls_le : out.0 ≤ left
    pub numbered : out.0 + attempt ≡ last + 1
    pub answered :
        (out.1 ≡ fetch last)
        ⊎ ((e : TaskError) × (wait_for_retry (delay * last) ≡ some e) × (out.1 ≡ err e))

  -- The single call of the last round that is played.
  one_call :
      (left attempt delay : ℕ) (r : Result TaskError (List Candle))
      → (r ≡ fetch attempt)
        ⊎ ((e : TaskError) × (wait_for_retry (delay * attempt) ≡ some e) × (r ≡ err e))
      → IsFetched (suc left) attempt delay (1, r)
  one_call left attempt delay r a = record {
    last = attempt;
    some_call = omega arith;
    calls_le = omega arith;
    numbered = omega arith;
    answered = a;
  }

  more_calls :
      (left attempt delay : ℕ) (out : ℕ × Result TaskError (List Candle))
      → IsFetched left (attempt + 1) delay out
      → IsFetched (suc left) attempt delay (suc out.0, out.1)
  more_calls left attempt delay out f = record {
    last = f.last;
    some_call = omega arith;
    calls_le = omega (arith, f.calls_le);
    numbered = omega (arith, f.numbered);
    answered = f.answered;
  }

  abbrev gives_up : ℕ → ℕ → TaskError → Bool
  gives_up attempts attempt e =
      not (is_temporary_error e) || (attempt == attempts || has_retry_after e)

  fetch_round :
      (left attempts attempt delay : ℕ)
      → attempt + left ≡ attempts
      → ((k : ℕ)
          → left ≡ suc k
          → IsFetched left
              (attempt + 1)
              delay
              (fetch_from fetch wait_for_retry left attempts (attempt + 1) delay))
      → IsFetched
          (suc left)
          attempt
          delay
          (fetch_from fetch wait_for_retry (suc left) attempts attempt delay)
  unfolding fetch_from
  fetch_round left attempts attempt delay h next = elim (Result-cases (fetch attempt)) [
    | inr (a, p) ↦ rw (p, fetch_from) (one_call left attempt delay (ok a) (inl (sym p)))
    | inl (e, p) ↦ elim (Bool-cases (gives_up attempts attempt e)) [
      | inl q ↦ rw (p, fetch_from) (rw q (one_call left attempt delay (err e) (inl (sym p))))
      | inr q ↦ elim (Option-cases (wait_for_retry (delay * attempt))) [
        | inr (e', w) ↦
            rw (p, fetch_from)
              (rw q (rw w (one_call left attempt delay (err e') (inr (e', w, refl)))))
        | inl w ↦
            rw (p, fetch_from)
              (rw q (
                rw w (
                  more_calls left attempt delay
                    (fetch_from fetch wait_for_retry left attempts (attempt + 1) delay)
                    (next (left - 1) (ground arith)))))
      ]
    ]
  ]

  fetch_from-IsFetched :
      (left attempts attempt delay : ℕ)
      → attempt + left ≡ attempts
      → IsFetched
          (suc left)
          attempt
          delay
          (fetch_from fetch wait_for_retry (suc left) attempts attempt delay)
  fetch_from-IsFetched zero attempts attempt delay h =
      fetch_round zero attempts attempt delay h (λ k e. absurd (omega arith))
  fetch_from-IsFetched (suc left) attempts attempt delay h =
      fetch_round (suc left) attempts attempt delay h
        (λ k e. fetch_from-IsFetched left attempts (attempt + 1) delay (omega arith))

  -- A fetch calls the client at least once and at most `FetchRetries + 1` times, and returns what
  -- the client answered last, or the error that ended the wait after that answer.
  pub fetch_candles_calls :
      (retries delay : ℕ)
      → IsFetched (retries + 1) 1 delay (fetch_candles fetch wait_for_retry retries delay)
  unfolding fetch_candles
  fetch_candles_calls retries delay =
      rw add-one (fetch_from-IsFetched retries (suc retries) 1 delay (omega arith))
