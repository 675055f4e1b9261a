-- ===== src/Retry.antt =====
-- src/retry.ts. The wrapped function is a parameter, the outcome of its call at each attempt; so
-- are the clock and `Math.random()`, which is `random i / precision` at attempt `i`. A delay is
-- counted in units of `1 / (4 * precision)` of a millisecond, so that the jitter of a quarter of
-- the delay is exact. Delays, attempts and the multiplier are natural numbers.
pub mod Delay
pub mod Attempts
mod Tests
use oaslananka_lab_mcp_ssh_t.Prelude.{
  ℕ, zero, suc, ◌+◌, ◌-◌, ◌*◌, ◌^◌, min, Bool, true, false, not, ◌||◌, Option, none, some, List, [],
  ◌∷◌, leb, if◌then◌else◌, get_or,
}

pub record RetryOptions : Type 0 where
  pub max_attempts : ℕ
  pub initial_delay_ms : ℕ
  pub max_delay_ms : ℕ
  pub backoff_multiplier : ℕ
  pub jitter : Bool

-- `Partial<RetryOptions>`, without the two callbacks
pub record PartialOptions : Type 0 where
  pub max_attempts : Option ℕ
  pub initial_delay_ms : Option ℕ
  pub max_delay_ms : Option ℕ
  pub backoff_multiplier : Option ℕ
  pub jitter : Option Bool

abbrev default_options : RetryOptions
default_options = record {
  max_attempts = 3;
  initial_delay_ms = 1000;
  max_delay_ms = 30000;
  backoff_multiplier = 2;
  jitter = true;
}

-- `{ ...DEFAULT_OPTIONS, ...options }` for options that are left out or have a value; one that is
-- given as undefined, which in the source takes the place of the default, is not modelled.
pub with_defaults : PartialOptions → RetryOptions
with_defaults p = record {
  max_attempts = get_or p.max_attempts default_options.max_attempts;
  initial_delay_ms = get_or p.initial_delay_ms default_options.initial_delay_ms;
  max_delay_ms = get_or p.max_delay_ms default_options.max_delay_ms;
  backoff_multiplier = get_or p.backoff_multiplier default_options.backoff_multiplier;
  jitter = get_or p.jitter default_options.jitter;
}

-- How the promise that the wrapped function returns is settled.
pub data Outcome (T E : Type 0) : Type 0 where
  resolved : T → Outcome T E
  rejected : E → Outcome T E

pub record RetryResult (T E : Type 0) : Type 0 where
  pub success : Bool
  pub result : Option T
  pub error : Option E
  pub attempts : ℕ
  pub total_time_ms : ℕ

-- A run: what is returned, and the delays that were slept, in order.
pub record Run (T E : Type 0) : Type 0 where
  pub returned : RetryResult T E
  pub slept : List ℕ

-- The delay without jitter, in milliseconds.
pub capped_delay : RetryOptions → ℕ → ℕ
capped_delay o attempt =
    min (o.initial_delay_ms * o.backoff_multiplier ^ (attempt - 1)) o.max_delay_ms

-- `cappedDelay + (random * 2 - 1) * cappedDelay / 4`, or `cappedDelay`, in the unit of the file. The
-- arithmetic is exact, where the doubles of the source round.
pub calculate_delay : ℕ → RetryOptions → ℕ → ℕ → ℕ
calculate_delay precision o random attempt =
    if o.jitter
    then capped_delay o attempt * (3 * precision + 2 * random)
    else capped_delay o attempt * (4 * precision)

module _ {T E : Type 0} (is_retryable : E → Bool) (fn : ℕ → Outcome T E) (clock : ℕ → ℕ)
    (precision : ℕ) (random : ℕ → ℕ) (o : RetryOptions) where
  pub succeeded : ℕ → T → Run T E
  succeeded attempt value = record {
    returned = record {
      success = true;
      result = some value;
      error = none;
      attempts = attempt;
      total_time_ms = clock attempt - clock 0;
    };
    slept = [];
  }

  -- the `return` behind the loop
  pub gave_up : ℕ → Option E → Run T E
  gave_up attempt last_error = record {
    returned = record {
      success = false;
      result = none;
      error = last_error;
      attempts = o.max_attempts;
      total_time_ms = clock attempt - clock 0;
    };
    slept = [];
  }

  -- the loop from `attempt` on, with the number of rounds that it may still make
  pub attempt_from : ℕ → ℕ → Option E → Run T E
  attempt_from zero attempt last_error = gave_up attempt last_error
  attempt_from (suc rounds) attempt last_error = elim (fn attempt) [
    | resolved value ↦ succeeded attempt value
    | rejected error ↦
        let rest = attempt_from rounds (suc attempt) (some error) in
        if leb o.max_attempts attempt || not (is_retryable error)
        then gave_up attempt (some error)
        else record rest {
          slept = calculate_delay precision o (random attempt) attempt ∷ rest.slept;
        }
  ]

  -- `clock i` is `Date.now()` when attempt `i` has been settled, and `clock 0` at the start.
  pub with_retry : Run T E
  with_retry = attempt_from o.max_attempts 1 none

  -- `retry` and the decorator: the result, or the error that is thrown
  pub retry : Outcome T (Option E)
  retry = elim with_retry.returned.result [
    | none ↦ rejected with_retry.returned.error
    | some value ↦ resolved value
  ]
