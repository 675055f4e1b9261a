-- ===== src/RateLimiter.antt =====
-- src/rate-limiter.ts: the sliding window log. `Date.now()` is an argument of each call, and the
-- test `t <= now - windowMs` is written `t + window_ms ≤ now`. The logger's lines are left out.
pub mod Logs
pub mod Window
pub mod Reports
mod Tests
use oaslananka_lab_mcp_ssh_t.Prelude.{
  ℕ, ◌+◌, ◌-◌, String, Bool, true, false, not, Option, none, some, List, [], ◌∷◌, ◌++◌, leb, ltb,
  if◌then◌else◌, get_or, length, keep, first,
}
use oaslananka_lab_mcp_ssh_t.StringMap.{StringMap}
use oaslananka_lab_mcp_ssh_t.StringMap

pub record RateLimiterConfig : Type 0 where
  pub max_requests : ℕ
  pub window_ms : ℕ
  pub block_on_limit : Bool

-- `Partial<RateLimiterConfig>`
pub record PartialConfig : Type 0 where
  pub max_requests : Option ℕ
  pub window_ms : Option ℕ
  pub block_on_limit : Option Bool

pub record RateLimitResult : Type 0 where
  pub allowed : Bool
  pub remaining : ℕ
  pub reset_in : ℕ
  pub blocked : Bool

pub record Usage : Type 0 where
  pub count : ℕ
  pub remaining : ℕ
  pub reset_in : ℕ

-- `cleanup_timer` tells whether the interval timer is set.
pub record RateLimiter : Type 0 where
  pub logs : StringMap (List ℕ)
  pub config : RateLimiterConfig
  pub cleanup_timer : Bool

-- the constructor
pub create : PartialConfig → RateLimiter
create p = record {
  logs = [];
  config = record {
    max_requests = get_or p.max_requests 100;
    window_ms = get_or p.window_ms 60000;
    block_on_limit = get_or p.block_on_limit true;
  };
  cleanup_timer = true;
}

-- the `while` loop and the `splice` of `check`
pub evict : ℕ → ℕ → List ℕ → List ℕ
evict w now [] = []
evict w now (t ∷ log) = if leb (t + w) now then evict w now log else t ∷ log

-- `log.filter((timestamp) => timestamp > cutoff)`
pub active : ℕ → ℕ → List ℕ → List ℕ
active w now = keep (λ t. ltb now (t + w))

pub check : RateLimiter → String → ℕ → RateLimiter × RateLimitResult
check r key now =
    let w = r.config.window_ms in
    let log = evict w now (get_or (StringMap.get key r.logs) []) in
    if leb r.config.max_requests (length log)
    then (
      record r { logs = StringMap.set key log r.logs },
      record {
        allowed = not r.config.block_on_limit;
        remaining = 0;
        reset_in = get_or (first log) now + w - now;
        blocked = r.config.block_on_limit;
      },
    )
    else (
      record r { logs = StringMap.set key (log ++ now ∷ []) r.logs },
      record {
        allowed = true;
        remaining = r.config.max_requests - length (log ++ now ∷ []);
        reset_in = w;
        blocked = false;
      },
    )

pub reset : RateLimiter → String → RateLimiter
reset r key = record r { logs = StringMap.delete key r.logs }

pub usage_of : RateLimiterConfig → ℕ → List ℕ → Option Usage
usage_of c now [] = none
usage_of c now (t ∷ log) = some (record {
  count = length (t ∷ log);
  remaining = c.max_requests - length (t ∷ log);
  reset_in = t + c.window_ms - now;
})

pub get_usage : RateLimiter → String → ℕ → Option Usage
unfolding usage_of
get_usage r key now = elim (StringMap.get key r.logs) [
  | none ↦ none
  | some log ↦ usage_of r.config now (active r.config.window_ms now log)
]

-- one round of the loop of `pruneExpiredLogs` over the entries
prune_entry : List ℕ → String → StringMap (List ℕ) → StringMap (List ℕ)
prune_entry [] key rest = rest
prune_entry (t ∷ log) key rest = (key, t ∷ log) ∷ rest

prune_logs : ℕ → ℕ → StringMap (List ℕ) → StringMap (List ℕ)
unfolding prune_entry
prune_logs w now [] = []
prune_logs w now ((key, log) ∷ logs) = prune_entry (active w now log) key (prune_logs w now logs)

pub prune_expired_logs : RateLimiter → ℕ → RateLimiter
prune_expired_logs r now = record r { logs = prune_logs r.config.window_ms now r.logs }

pub destroy : RateLimiter → RateLimiter
destroy r = record r { logs = []; cleanup_timer = false }
