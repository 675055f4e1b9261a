-- ===== src/RateLimiter/Tests.antt =====
-- Runs of the limiter of src/rate-limiter.ts, and its theorems at concrete inputs.
use oaslananka_lab_mcp_ssh_t.Prelude.{
  ℕ, ◌≤◌, String, ◌≡◌, refl, ◌≢◌, true, none, some, List, [], ◌∷◌, arith, eq_iff, keep,
}
use oaslananka_lab_mcp_ssh_t.StringMap.{get, set}
use oaslananka_lab_mcp_ssh_t.RateLimiter.{
  RateLimiter, PartialConfig, create, evict, check, active, prune_expired_logs, prune_logs,
}
use oaslananka_lab_mcp_ssh_t.RateLimiter.Window.{
  Event, request, cleanup, allowed_times, allowed_times_bounded,
}
use oaslananka_lab_mcp_ssh_t.RateLimiter.Logs.{count_within}
use oaslananka_lab_mcp_ssh_t.RateLimiter.Reports.{log_at}

abbrev two_per_100 : PartialConfig
two_per_100 = record { max_requests = some 2; window_ms = some 100; block_on_limit = none }

abbrev traffic : List (ℕ × Event)
traffic =
    (10, request "a")
    ∷ (20, request "a")
    ∷ (30, request "a")
    ∷ (40, request "b")
    ∷ (60, cleanup)
    ∷ (110, request "a")
    ∷ (111, request "a")
    ∷ []

allowed_times-traffic : allowed_times "a" (create two_per_100) traffic ≡ 10 ∷ 20 ∷ 110 ∷ []
unfolding allowed_times create check evict get set prune_expired_logs prune_logs active keep
allowed_times-traffic = refl

allowed_times_bounded_example :
    count_within 100 115 (allowed_times "a" (create two_per_100) traffic) ≤ 2
unfolding create
allowed_times_bounded_example = allowed_times_bounded two_per_100 "a" traffic 115 refl (omega arith)

-- One recorded request at time 10 under "a".
abbrev used : RateLimiter
used = record {
  logs = ("a", 10 ∷ []) ∷ [];
  config = record { max_requests = 2; window_ms = 100; block_on_limit = true };
  cleanup_timer = true;
}

log_at-used : log_at used "a" ≡ 10 ∷ []
unfolding get
log_at-used = refl

a_not_b : ◌≢◌ {A = String} "a" "b"
a_not_b = ground (arith, eq_iff "a" "b")
