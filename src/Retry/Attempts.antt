-- ===== src/Retry/Attempts.antt =====
-- How often src/retry.ts calls the wrapped function, and what it returns.
use oaslananka_lab_mcp_ssh_t.Prelude.{
  ℕ, zero, suc, ◌+◌, ◌≤◌, ◌<◌, ◌≡◌, refl, ap, subst, ◌⊎◌, inl, inr, Bool, true, false, not, ◌||◌,
  Option, none, some, List, [], ◌∷◌, arith, leb, Bool-cases,
}
use oaslananka_lab_mcp_ssh_t.Retry.{
  RetryOptions, Outcome, resolved, rejected, Run, calculate_delay, succeeded, gave_up, attempt_from,
  with_retry,
}

module _ {T E : Type 0} (is_retryable : E → Bool) (fn : ℕ → Outcome T E) where
  -- The call at `attempt` fails with an error that is worth another attempt.
  abbrev Transient : ℕ → Type 0
  Transient attempt = (e : E) × (fn attempt ≡ rejected e) × (is_retryable e ≡ true)

  -- From `attempt` on, a number of calls fail in such a way.
  abbrev Failing : ℕ → ℕ → Type 0
  Failing attempt zero = Unit
  Failing attempt (suc n) = Transient attempt × Failing (suc attempt) n

module _ {T E : Type 0} (is_retryable : E → Bool) (fn : ℕ → Outcome T E) (clock : ℕ → ℕ)
    (precision : ℕ) (random : ℕ → ℕ) (o : RetryOptions) where
  abbrev delays : ℕ → ℕ → List ℕ
  delays attempt zero = []
  delays attempt (suc n) =
      calculate_delay precision o (random attempt) attempt ∷ delays (suc attempt) n

  -- What a run that starts at `attempt` may come to: `n` more transient failures, then a success,
  -- or a last error that is permanent or stands at the limit.
  pub data Settles (attempt : ℕ) (run : Run T E) : Type 0 where
    success :
        (n : ℕ) (value : T)
        → Failing is_retryable fn attempt n
        → fn (attempt + n) ≡ resolved value
        → attempt + n ≤ o.max_attempts
        → run.returned.success ≡ true
        → run.returned.result ≡ some value
        → run.returned.attempts ≡ attempt + n
        → run.slept ≡ delays attempt n
        → Settles attempt run
    failure :
        (n : ℕ) (error : E)
        → Failing is_retryable fn attempt n
        → fn (attempt + n) ≡ rejected error
        → attempt + n ≤ o.max_attempts
        → (attempt + n ≡ o.max_attempts) ⊎ (is_retryable error ≡ false)
        → run.returned.success ≡ false
        → run.returned.error ≡ some error
        → run.returned.attempts ≡ o.max_attempts
        → run.slept ≡ delays attempt n
        → Settles attempt run

  -- One more transient failure in front.
  Settles-cons :
      (attempt : ℕ) (rest : Run T E)
      → Transient is_retryable fn attempt
      → Settles (suc attempt) rest
      → Settles attempt (record rest {
        slept = calculate_delay precision o (random attempt) attempt ∷ rest.slept;
      })
  Settles-cons attempt rest t (success n value f e le s r a d) =
      let shift : suc attempt + n ≡ attempt + suc n = omega arith in
      success (suc n) value (t, f) (subst (λ k. fn k ≡ resolved value) shift e) (omega arith) s r
        (omega arith) (ap (λ ds. calculate_delay precision o (random attempt) attempt ∷ ds) d)
  Settles-cons attempt rest t (failure n error f e le stop s r a d) =
      let shift : suc attempt + n ≡ attempt + suc n = omega arith in
      failure (suc n) error (t, f) (subst (λ k. fn k ≡ rejected error) shift e) (omega arith)
        (ground arith) s r a
        (ap (λ ds. calculate_delay precision o (random attempt) attempt ∷ ds) d)

  Outcome-cases : (x : Outcome T E) → ((v : T) × (x ≡ resolved v)) ⊎ ((e : E) × (x ≡ rejected e))
  Outcome-cases (resolved v) = inl (v, refl)
  Outcome-cases (rejected e) = inr (e, refl)

  abbrev loop : ℕ → ℕ → Option E → Run T E
  loop = attempt_from is_retryable fn clock precision random o

  module _ (rounds attempt : ℕ) (last : Option E) where
    loop_resolved :
        (v : T)
        → fn attempt ≡ resolved v
        → attempt ≤ o.max_attempts
        → Settles attempt (loop (suc rounds) attempt last)
    unfolding attempt_from succeeded
    loop_resolved v e h =
        let here : fn (attempt + 0) ≡ resolved v = subst (λ k. fn k ≡ resolved v) (omega arith) e in
        rw (e, attempt_from) (success 0 v tt here (omega arith) refl refl (omega arith) refl)

    loop_stopped :
        (x : E)
        → fn attempt ≡ rejected x
        → attempt ≤ o.max_attempts
        → (leb o.max_attempts attempt || not (is_retryable x)) ≡ true
        → Settles attempt (loop (suc rounds) attempt last)
    unfolding attempt_from gave_up
    loop_stopped x e h stop =
        let here : fn (attempt + 0) ≡ rejected x = subst (λ k. fn k ≡ rejected x) (omega arith) e in
        rw (e, attempt_from)
          (rw stop (failure 0 x tt here (omega arith) (ground arith) refl refl refl refl))

    loop_continued :
        (x : E)
        → fn attempt ≡ rejected x
        → (leb o.max_attempts attempt || not (is_retryable x)) ≡ false
        → Settles (suc attempt) (loop rounds (suc attempt) (some x))
        → Settles attempt (loop (suc rounds) attempt last)
    unfolding attempt_from
    loop_continued x e go rest =
        rw (e, attempt_from)
          (rw go
            (Settles-cons attempt (loop rounds (suc attempt) (some x)) (x, e, ground arith) rest))

  -- One round, given what the next one would come to.
  round-Settles :
      (rounds attempt : ℕ) (last : Option E)
      → attempt ≤ o.max_attempts
      → ((x : E)
          → leb o.max_attempts attempt ≡ false
          → Settles (suc attempt) (loop rounds (suc attempt) (some x)))
      → Settles attempt (loop (suc rounds) attempt last)
  round-Settles rounds attempt last h next = elim (Outcome-cases (fn attempt)) [
    | inl (v, e) ↦ loop_resolved rounds attempt last v e h
    | inr (x, e) ↦ elim (Bool-cases (leb o.max_attempts attempt || not (is_retryable x))) [
      | inl stop ↦ loop_stopped rounds attempt last x e h stop
      | inr go ↦ loop_continued rounds attempt last x e go (next x (ground arith))
    ]
  ]

  attempt_from-Settles :
      (rounds attempt : ℕ) (last : Option E)
      → suc rounds + attempt ≡ suc o.max_attempts
      → Settles attempt (loop (suc rounds) attempt last)
  attempt_from-Settles zero attempt last h =
      round-Settles zero attempt last (omega arith) (λ x room. absurd (ground arith))
  attempt_from-Settles (suc rounds) attempt last h =
      round-Settles (suc rounds) attempt last (omega arith)
        (λ x room. attempt_from-Settles rounds (suc attempt) (some x) (omega arith))

  start-Settles : (m : ℕ) → m ≡ o.max_attempts → 0 < m → Settles 1 (loop m 1 none)
  start-Settles zero e h = elim h [ ]
  start-Settles (suc m) e h = attempt_from-Settles m 1 none (omega arith)

-- If at least one attempt is allowed, the loop ends in one of two ways. After some number `n` of
-- transient failures the next call succeeds within the limit, and its value and the number of calls
-- are returned; or the next call fails with a permanent error or at the limit, and that error is
-- returned, with the configured maximum as the number of attempts. Either way the delays slept are
-- those of the `n` failures.
pub with_retry-Settles :
    {T E : Type 0} (is_retryable : E → Bool) (fn : ℕ → Outcome T E) (clock : ℕ → ℕ) (precision : ℕ)
    (random : ℕ → ℕ) (o : RetryOptions)
    → 0 < o.max_attempts
    → Settles is_retryable fn clock precision random o 1
        (with_retry is_retryable fn clock precision random o)
unfolding with_retry
with_retry-Settles is_retryable fn clock precision random o h =
    start-Settles is_retryable fn clock precision random o o.max_attempts refl h
