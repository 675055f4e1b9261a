-- ===== src/Retry/Tests.antt =====
-- Runs of src/retry.ts, and its theorems at concrete inputs.
use oaslananka_lab_mcp_ssh_t.Prelude.{
  ℕ, ◌*◌, ◌<◌, ◌≡◌, refl, Bool, true, none, some, [], ◌∷◌, arith, ltb, if◌then◌else◌,
}
use oaslananka_lab_mcp_ssh_t.Retry.{
  RetryOptions, Outcome, resolved, rejected, capped_delay, calculate_delay, succeeded, gave_up,
  attempt_from, with_retry,
}
use oaslananka_lab_mcp_ssh_t.Retry.Delay.{jitter_exceeds_max}
use oaslananka_lab_mcp_ssh_t.Retry.Attempts.{Settles, with_retry-Settles}

abbrev plain : RetryOptions
plain = record {
  max_attempts = 5;
  initial_delay_ms = 100;
  max_delay_ms = 300;
  backoff_multiplier = 2;
  jitter = true;
}

-- Fails with 1 twice and then yields 7; the error 0 is permanent.
abbrev flaky : ℕ → Outcome ℕ ℕ
flaky attempt = if ltb attempt 3 then rejected 1 else resolved 7

abbrev worth_it : ℕ → Bool
worth_it e = ltb 0 e

flaky_run : with_retry worth_it flaky (λ i. 10 * i) 100 (λ i. 50) plain ≡ record {
  returned = record {
    success = true;
    result = some 7;
    error = none;
    attempts = 3;
    total_time_ms = 30;
  };
  slept = 40000 ∷ 80000 ∷ [];
}
unfolding with_retry attempt_from succeeded calculate_delay capped_delay
flaky_run = refl

permanent : ℕ → Outcome ℕ ℕ
permanent attempt = rejected 0

-- One call is made, and five are reported.
permanent_run : (with_retry worth_it permanent (λ i. 0) 100 (λ i. 0) plain).returned.attempts ≡ 5
unfolding with_retry attempt_from gave_up permanent
permanent_run = refl

jitter_exceeds_max_example : 4 * 100 * 300 < calculate_delay 100 plain 99 3
jitter_exceeds_max_example =
    jitter_exceeds_max 100 plain 99 3 refl (omega arith) (omega arith) (omega arith)

with_retry-Settles_example :
    Settles worth_it flaky
      (λ i. 0)
      100
      (λ i. 50)
      plain
      1
      (with_retry worth_it flaky (λ i. 0) 100 (λ i. 50) plain)
with_retry-Settles_example =
    with_retry-Settles worth_it flaky (λ i. 0) 100 (λ i. 50) plain (omega arith)
