-- ===== src/RateLimiter/Reports.antt =====
-- What src/rate-limiter.ts reports to its callers: the verdict of `check`, and `getUsage` after it.
use oaslananka_lab_mcp_ssh_t.Prelude.{
  ℕ, ◌+◌, ◌-◌, ◌≤◌, ◌<◌, String, ◌≡◌, refl, ◌≢◌, not, ◌||◌, some, List, [], ◌∷◌, ◌++◌, arith,
  eq_iff, eq_refl, ltb, get_or, length, length-append, All,
}
use oaslananka_lab_mcp_ssh_t.StringMap.{get, get-set, get-delete}
use oaslananka_lab_mcp_ssh_t.RateLimiter.Logs.{
  evict-evict, evict-snoc, evict-Ascending, Ascending-snoc, active-eq-evict, All-evict, Ascending,
  count_within,
}
use oaslananka_lab_mcp_ssh_t.RateLimiter.{
  Usage, RateLimiter, evict, active, check, Usage, RateLimiterConfig, get_usage, usage_of, reset,
}

-- The log that a key has now.
abbrev pub log_at : RateLimiter → String → List ℕ
log_at r k = get_or (get k r.logs) []

count_kept :
    (w now x : ℕ) (xs : List ℕ)
    → now < x + w
    → All (λ s. s ≤ now) xs
    → All (λ s. x ≤ s) xs
    → count_within w now xs ≡ length xs
count_kept w now x [] h p k = refl
count_kept w now x (y ∷ ys) h p k = ground (arith, count_kept w now x ys h p.1 k.1)

-- The loop leaves as many entries as lie in the window.
length-evict :
    (w now : ℕ) (xs : List ℕ)
    → All (λ s. s ≤ now) xs
    → Ascending xs
    → length (evict w now xs) ≡ count_within w now xs
unfolding evict
length-evict w now [] p a = refl
length-evict w now (x ∷ xs) p a =
    ground (arith, length-evict w now xs p.1 a.1, count_kept w now x xs)

-- On a log in order and in the past, a request is let through exactly when the limiter only warns
-- or fewer recorded requests than the maximum lie in the window that ends now, and it is reported
-- as blocked exactly when it is not let through.
check_verdict :
    (r : RateLimiter) (k : String) (now : ℕ)
    → All (λ s. s ≤ now) (log_at r k)
    → Ascending (log_at r k)
    → ((check r k now).1.allowed ≡ (
        not r.config.block_on_limit
        || ltb (count_within r.config.window_ms now (log_at r k)) r.config.max_requests))
      × ((check r k now).1.blocked ≡ not (check r k now).1.allowed)
unfolding check
check_verdict r k now p a = ground (arith, length-evict r.config.window_ms now (log_at r k) p a)

evict_head : (w now x : ℕ) (xs log : List ℕ) → evict w now log ≡ x ∷ xs → now < x + w
unfolding evict
evict_head w now x xs [] e = cc
evict_head w now x xs (y ∷ log) e = ground (arith, evict_head w now x xs log)

evict_now : (w now : ℕ) → 0 < w → evict w now (now ∷ []) ≡ now ∷ []
unfolding evict
evict_now w now h = ground arith

-- Right after a request is recorded every entry of the log is active.
active_pushed :
    (w now : ℕ) (log : List ℕ)
    → 0 < w
    → All (λ s. s ≤ now) log
    → Ascending log
    → active w now (evict w now log ++ now ∷ []) ≡ evict w now log ++ now ∷ []
active_pushed w now log h p a =
    let past = All-evict (λ s. s ≤ now) w now log p in
    rw (
      active-eq-evict w now _ (Ascending-snoc _ now (evict-Ascending w now log a) past),
      evict-snoc w now now (evict w now log) past,
      evict-evict w now now log (omega arith),
      evict_now w now h,
    )

-- The usage of a log of that form.
pushed_usage :
    (c : RateLimiterConfig) (now : ℕ) (old log : List ℕ)
    → 0 < c.window_ms
    → All (λ s. s ≤ now) log
    → evict c.window_ms now old ≡ log
    → (u : Usage) × (usage_of c now (log ++ now ∷ []) ≡ some u)
      × (u.count ≡ length log + 1)
      × (u.remaining ≡ c.max_requests - (length log + 1))
      × (0 < u.reset_in)
      × (u.reset_in ≤ c.window_ms)
unfolding usage_of
pushed_usage c now old [] h p e = (_, refl, omega arith, omega arith, omega arith, omega arith)
pushed_usage c now old (x ∷ xs) h p e =
    let kept = evict_head c.window_ms now x xs old e in
    (
      _,
      refl,
      omega (arith, length-append xs (now ∷ [])),
      omega (arith, length-append xs (now ∷ [])),
      omega arith,
      omega arith,
    )

-- What `getUsage` says of a key right after a request under it was recorded.
get_usage-check :
    (r : RateLimiter) (k : String) (now : ℕ)
    → 0 < r.config.window_ms
    → All (λ s. s ≤ now) (log_at r k)
    → Ascending (log_at r k)
    → count_within r.config.window_ms now (log_at r k) < r.config.max_requests
    → (u : Usage) × (get_usage (check r k now).0 k now ≡ some u)
      × (u.count ≡ count_within r.config.window_ms now (log_at r k) + 1)
      × (u.remaining ≡ (check r k now).1.remaining)
      × (0 < u.reset_in)
      × (u.reset_in ≤ r.config.window_ms)
unfolding get_usage check
get_usage-check r k now w p a room =
    let log = log_at r k in
    let (u, e, n, m, lo, hi) =
      pushed_usage r.config now log (evict r.config.window_ms now log) w
        (All-evict (λ s. s ≤ now) r.config.window_ms now log p) refl in
    let size = length-evict r.config.window_ms now log p a in
    (
      u,
      ground (
        arith,
        active_pushed r.config.window_ms now log w p a,
        get-set k k (evict r.config.window_ms now log ++ now ∷ []) r.logs,
        eq_refl k,
      ),
      omega arith,
      ground (arith, length-append (evict r.config.window_ms now log) (now ∷ [])),
      lo,
      hi,
    )

-- A request, or a reset, under one key changes nothing that is kept under another.
check-other_key :
    (r : RateLimiter) (k j : String) (now later : ℕ)
    → k ≢ j
    → (get_usage (check r k now).0 j later ≡ get_usage r j later)
      × ((check (check r k now).0 j later).1 ≡ (check r j later).1)
      × (get_usage (reset r k) j later ≡ get_usage r j later)
unfolding check get_usage reset
check-other_key r k j now later h =
    let w = r.config.window_ms in
    let log = evict w now (log_at r k) in
    (
      ground (arith, eq_iff k j, get-set k j log r.logs, get-set k j (log ++ now ∷ []) r.logs),
      ground (arith, eq_iff k j, get-set k j log r.logs, get-set k j (log ++ now ∷ []) r.logs),
      ground (arith, eq_iff k j, get-delete k j r.logs),
    )
