-- ===== src/Push/Outbox/Delays.antt =====
-- When a message is sent again (push_subscribers.go, `rescheduleOutboxItem`).
use native.Mathlib.Nat.{pow-le-pow_right}
use my_t_companion.Base.{◌≤◌, min, ◌^◌, arith}
use my_t_companion.Push.Outbox.{retry_delay, ℕ, seconds, max_push_retry_delay}

pow_range : (n : ℕ) → n ≤ 8 → 1 ≤ n → (2 ≤ 2 ^ n) × (2 ^ n ≤ 256)
pow_range n h k = (pow-le-pow_right (omega arith) k, pow-le-pow_right (omega arith) h)

-- From the first attempt on, the wait before the next one is at least four seconds, at least what the relay asks for
-- up to 15 minutes, and never more than 15 minutes.
pub retry_delay-bounds :
    (attempt retry_after : ℕ)
    → 1 ≤ attempt
    → (seconds 4 ≤ retry_delay attempt retry_after)
      × (min retry_after max_push_retry_delay ≤ retry_delay attempt retry_after)
      × (retry_delay attempt retry_after ≤ max_push_retry_delay)
unfolding retry_delay
retry_delay-bounds attempt retry_after h =
    let (low, high) = pow_range (min attempt 8) (omega arith) (omega arith) in
    (omega arith, omega arith, omega arith)
