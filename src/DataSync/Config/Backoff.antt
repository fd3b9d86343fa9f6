-- ===== src/DataSync/Config/Backoff.antt =====
-- internal/datasync/runner.go: bounds of the defaults and of the retry delays.
use tictick_hi.Base.{ℕ, zero, suc, ◌+◌, ◌*◌, ◌≤◌, ◌<◌, ◌≡◌, refl, ◌⊎◌, inl, inr, arith}
use tictick_hi.DataSync.Config.{
  Config, new_runner_config, double_up_to, bounded_exponential_backoff,
}

-- Every count and duration of a runner's configuration is positive, but for the overlap, and the
-- largest retry delay is not below the first.
pub record IsConfigured (c : Config) : Type 0 where
  pub lease_pos : 0 < c.lease_ttl
  pub heartbeat_pos : 0 < c.heartbeat_interval
  pub poll_pos : 0 < c.poll_interval
  pub batch_pos : 0 < c.batch_limit
  pub lookback_pos : 0 < c.default_lookback
  pub retries_pos : 0 < c.fetch_retries
  pub delay_pos : 0 < c.retry_delay
  pub backoff_pos : 0 < c.retry_backoff
  pub backoff_le : c.retry_backoff ≤ c.max_retry_backoff

configured : (c : Config) → IsConfigured (new_runner_config c)
unfolding new_runner_config
configured c = ground arith

-- `NewRunner` leaves no count or duration unset, whatever it is given, and is done after one pass:
-- its own result is a fixed point.
pub new_runner_config-IsConfigured :
    (c : Config)
    → IsConfigured (new_runner_config c)
      × (new_runner_config (new_runner_config c) ≡ new_runner_config c)
unfolding new_runner_config
new_runner_config-IsConfigured c = (configured c, ground arith)

double_up_to_bounds :
    (rounds max_delay delay : ℕ)
    → delay ≤ max_delay
    → (delay ≤ double_up_to rounds max_delay delay)
      × (double_up_to rounds max_delay delay ≤ max_delay)
unfolding double_up_to
double_up_to_bounds zero m d h = ground arith
double_up_to_bounds (suc n) m d h = ground (arith, double_up_to_bounds n m (d * 2))

double_up_to_mono :
    (rounds max_delay delay : ℕ)
    → delay ≤ max_delay
    → double_up_to rounds max_delay delay ≤ double_up_to (suc rounds) max_delay delay
unfolding double_up_to
double_up_to_mono zero m d h = ground arith
double_up_to_mono (suc n) m d h = ground (arith, double_up_to_mono n m (d * 2))

zero_or_suc : (n : ℕ) → (n ≡ 0) ⊎ ((k : ℕ) × (n ≡ suc k))
zero_or_suc zero = inl refl
zero_or_suc (suc k) = inr (k, refl)

-- The delay before attempt `n + 1` lies between the first delay and the largest, and never falls
-- as the attempts go on.
pub bounded_exponential_backoff_bounds :
    (base max_delay attempt : ℕ)
    → base ≤ max_delay
    → (base ≤ bounded_exponential_backoff base max_delay attempt)
      × (bounded_exponential_backoff base max_delay attempt ≤ max_delay)
      × (bounded_exponential_backoff base max_delay attempt
          ≤ bounded_exponential_backoff base max_delay (attempt + 1))
unfolding bounded_exponential_backoff
bounded_exponential_backoff_bounds base m zero h = ground arith
bounded_exponential_backoff_bounds base m (suc n) h = elim (zero_or_suc n) [
  | inl e ↦ rw e (ground (arith, double_up_to_bounds 1 m base h))
  | inr (k, e) ↦
      rw e
        (ground (arith, double_up_to_bounds (suc k) m base h, double_up_to_mono (suc k) m base h))
]
