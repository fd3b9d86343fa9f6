-- ===== src/Notification/Runner/Retries.antt =====
-- internal/notification/runner.go: when a failed delivery is tried again.
use tictick_hi.Base.{
  ℕ, ◌+◌, ◌≤◌, ◌<◌, ◌≡◌, refl, ◌⊎◌, inl, inr, none, some, Bool-cases, arith, ltb, leb,
}
use tictick_hi.Notification.Runner.{
  Config, NotificationDelivery, retry_product, next_attempt_at, new_runner_config,
}

retry_product_pos : (c : Config) (n : ℕ) → 0 < c.retry_delay → 0 < retry_product c n
unfolding retry_product
retry_product_pos c n h = ground arith

-- A failed delivery is given up exactly when its attempts are used up; otherwise it is tried again
-- later than now, and no later than the largest delay from now, whatever the product of the delay
-- and the attempts overflows to.
pub next_attempt_at_bounds :
    (c : Config) (d : NotificationDelivery) (now : ℕ)
    → 0 < c.retry_delay
    → 0 < c.max_retry_delay
    → ((d.max_attempts ≤ d.attempt_count) × (next_attempt_at c d now ≡ none))
      ⊎ ((d.attempt_count < d.max_attempts)
          × ((next : ℕ) × (next_attempt_at c d now ≡ some next)
              × (now < next)
              × (next ≤ now + c.max_retry_delay)))
unfolding next_attempt_at
next_attempt_at_bounds c d now p q =
    let delay = retry_product c d.attempt_count in
    let pos = retry_product_pos c d.attempt_count p in
    elim (Bool-cases (leb d.max_attempts d.attempt_count)) [
      | inl over ↦ inl (ground arith, rw over refl)
      | inr left ↦ elim (Bool-cases (ltb c.max_retry_delay delay)) [
        | inl long ↦ inr (
          ground arith,
          (now + c.max_retry_delay, rw (left, long) refl, omega arith, omega arith),
        )
        | inr short ↦
            inr (ground arith, (now + delay, rw (left, short) refl, omega arith, ground arith))
      ]
    ]

-- `NewRunner` leaves no duration unset but the provider's interval, and its own result as it is.
pub new_runner_config-IsSet :
    (c : Config)
    → (0 < (new_runner_config c).retry_delay)
      × (0 < (new_runner_config c).max_retry_delay)
      × (0 < (new_runner_config c).lease_ttl)
      × (0 < (new_runner_config c).poll_interval)
unfolding new_runner_config
new_runner_config-IsSet c = (ground arith, ground arith, ground arith, ground arith)
