-- ===== src/Retry/Delay.antt =====
-- Bounds on the delays of src/retry.ts.
use oaslananka_lab_mcp_ssh_t.Prelude.{ℕ, suc, ◌-◌, ◌*◌, ◌^◌, ◌≤◌, ◌<◌, ◌≡◌, true, arith}
use native.Mathlib.Nat.{mul-le-mul_left}
use oaslananka_lab_mcp_ssh_t.Retry.{RetryOptions, capped_delay, calculate_delay}

-- The products that the bounds compare, over any capped delay `c` and maximum `m`.
scaled : (c m p r : ℕ) → c ≤ m → r < p → (c * r ≤ c * p) × (c * p ≤ m * p)
scaled c m p r h k = (grind arith, grind arith)

scaled_lt : (m p r : ℕ) → 0 < m → p < 2 * r → m * p < m * (2 * r)
scaled_lt m p r pos h = omega (arith, mul-le-mul_left {m = suc p} m h)

-- With a random number below one, a delay is at least three quarters and at most five quarters of
-- the capped exponential delay, and so never more than five quarters of the configured maximum.
calculate_delay_bounds :
    (p : ℕ) (o : RetryOptions) (random attempt : ℕ)
    → random < p
    → (3 * p * capped_delay o attempt ≤ calculate_delay p o random attempt)
      × (calculate_delay p o random attempt ≤ 5 * p * capped_delay o attempt)
      × (calculate_delay p o random attempt ≤ 5 * p * o.max_delay_ms)
unfolding calculate_delay capped_delay
calculate_delay_bounds p o random attempt h =
    let (x, y) = scaled (capped_delay o attempt) o.max_delay_ms p random (omega arith) h in
    (ground arith, ground arith, ground arith)

-- Once the exponential delay has reached a positive maximum, every random number above one half
-- gives a delay that is longer than the maximum.
pub jitter_exceeds_max :
    (p : ℕ) (o : RetryOptions) (random attempt : ℕ)
    → o.jitter ≡ true
    → 0 < o.max_delay_ms
    → o.max_delay_ms ≤ o.initial_delay_ms * o.backoff_multiplier ^ (attempt - 1)
    → p < 2 * random
    → 4 * p * o.max_delay_ms < calculate_delay p o random attempt
unfolding calculate_delay capped_delay
jitter_exceeds_max p o random attempt j pos reached above =
    ground (arith, scaled_lt o.max_delay_ms p random pos above)
