-- ===== src/RateLimiter/Window.antt =====
-- The sliding window of src/rate-limiter.ts against the history of the requests that it let
-- through.
use oaslananka_lab_mcp_ssh_t.Prelude.{
  ℕ, ◌≤◌, ◌<◌, String, ◌≡◌, refl, sym, subst, ◌∙◌, inl, inr, Bool, true, false, ◌&&◌, none, List,
  [], ◌∷◌, ◌++◌, append_assoc, append-nil, arith, ◌==◌, eq_iff, leb, if◌then◌else◌, Bool-cases,
  get_or, length, keep, All, All-append,
}
use oaslananka_lab_mcp_ssh_t.StringMap.{StringMap, get, get-set, Distinct, set-Distinct}
use oaslananka_lab_mcp_ssh_t.RateLimiter.Logs.{
  snoc_bounded, evict-snoc, evict-Ascending, Ascending, evict-evict, Ascending-snoc, All-evict,
  active-eq-evict, All-le_mono, count_within,
}
use oaslananka_lab_mcp_ssh_t.RateLimiter.{
  RateLimiter, RateLimiterConfig, PartialConfig, create, evict, active, check, prune_logs,
  prune_expired_logs,
}

-- An event of one limiter: a request under a key, or a tick of the cleanup timer.
pub data Event : Type 0 where
  request : String → Event
  cleanup : Event

pub step : RateLimiter → ℕ → Event → RateLimiter
step r now (request k) = (check r k now).0
step r now cleanup = prune_expired_logs r now

-- The times at which requests under `key` were allowed, oldest first.
admitted : String → RateLimiter → ℕ → Event → List ℕ
admitted key r now (request k) = if k == key && (check r k now).1.allowed then now ∷ [] else []
admitted key r now cleanup = []

unfoldable pub allowed_times : String → RateLimiter → List (ℕ × Event) → List ℕ
unfolding admitted step
allowed_times key r [] = []
allowed_times key r ((now, e) ∷ es) = admitted key r now e ++ allowed_times key (step r now e) es

-- The clock never runs backwards.
abbrev InOrder : ℕ → List (ℕ × Event) → Type 0
InOrder last [] = Unit
InOrder last ((now, e) ∷ es) = (last ≤ now) × InOrder now es

abbrev log_of : String → RateLimiter → List ℕ
log_of key r = get_or (get key r.logs) []

-- A log and a history of one key agree on every window that ends at `last` or later.
record Agrees (c : RateLimiterConfig) (last : ℕ) (log acc : List ℕ) : Type 0 where
  past : All (λ s. s ≤ last) acc
  ordered : Ascending acc
  log_past : All (λ s. s ≤ last) log
  log_ordered : Ascending log
  agree : (now : ℕ) → last ≤ now → evict c.window_ms now log ≡ evict c.window_ms now acc
  bounded : (t : ℕ) → count_within c.window_ms t acc ≤ c.max_requests

record Tracks (key : String) (last : ℕ) (r : RateLimiter) (acc : List ℕ) : Type 0 where
  distinct : Distinct r.logs
  agrees : Agrees r.config last (log_of key r) acc

module _ (r : RateLimiter) (k : String) (now : ℕ) where
  -- The log under the key once the expired entries are gone.
  abbrev fresh_log : List ℕ
  fresh_log = evict r.config.window_ms now (log_of k r)

  abbrev is_full : Bool
  is_full = leb r.config.max_requests (length fresh_log)

  -- The log that `check` leaves under the key that it was asked for.
  checked_log : List ℕ
  checked_log = if is_full then fresh_log else fresh_log ++ now ∷ []

  check-config : (check r k now).0.config ≡ r.config
  unfolding check
  check-config = ground arith

  check-Distinct : Distinct r.logs → Distinct (check r k now).0.logs
  unfolding check
  check-Distinct d =
      ground (arith, set-Distinct k fresh_log r.logs, set-Distinct k (fresh_log ++ now ∷ []) r.logs)

  allowed_of_full :
      is_full ≡ true → r.config.block_on_limit ≡ true → (check r k now).1.allowed ≡ false
  unfolding check
  allowed_of_full full b = ground arith

  allowed_of_room : is_full ≡ false → (check r k now).1.allowed ≡ true
  unfolding check
  allowed_of_room room = ground arith

log_of-check :
    (r : RateLimiter) (k key : String) (now : ℕ)
    → log_of key (check r k now).0 ≡ (if k == key then checked_log r k now else log_of key r)
unfolding check checked_log
log_of-check r k key now = ground (
  arith,
  get-set k key (fresh_log r k now) r.logs,
  get-set k key (fresh_log r k now ++ now ∷ []) r.logs,
)

get-prune_logs-none :
    (w now : ℕ) (key : String) (m : StringMap (List ℕ))
    → get key m ≡ none
    → get key (prune_logs w now m) ≡ none
unfolding get prune_logs
get-prune_logs-none w now key [] h = refl
get-prune_logs-none w now key ((k, log) ∷ m) h = ground (arith, get-prune_logs-none w now key m)

log-prune :
    (w now : ℕ) (key : String) (m : StringMap (List ℕ))
    → Distinct m
    → get_or (get key (prune_logs w now m)) [] ≡ active w now (get_or (get key m) [])
unfolding get prune_logs active keep
log-prune w now key [] d = refl
log-prune w now key ((k, log) ∷ m) d =
    ground (arith, log-prune w now key m d.1, get-prune_logs-none w now key m, eq_iff k key)

prune_logs-Distinct :
    (w now : ℕ) (m : StringMap (List ℕ)) → Distinct m → Distinct (prune_logs w now m)
unfolding get prune_logs
prune_logs-Distinct w now [] d = tt
prune_logs-Distinct w now ((k, log) ∷ m) d =
    ground (arith, prune_logs-Distinct w now m d.1, get-prune_logs-none w now k m d.0)

module _ (c : RateLimiterConfig) {now : ℕ} {log acc : List ℕ} where
  Agrees-later : {last : ℕ} → last ≤ now → Agrees c last log acc → Agrees c now log acc
  Agrees-later {last} o a = record {
    past = All-le_mono last now acc o a.past;
    ordered = a.ordered;
    log_past = All-le_mono last now log o a.log_past;
    log_ordered = a.log_ordered;
    agree = λ later h. a.agree later (omega arith);
    bounded = a.bounded;
  }

  Agrees-evict : Agrees c now log acc → Agrees c now (evict c.window_ms now log) acc
  Agrees-evict a = record {
    past = a.past;
    ordered = a.ordered;
    log_past = All-evict (λ s. s ≤ now) c.window_ms now log a.log_past;
    log_ordered = evict-Ascending c.window_ms now log a.log_ordered;
    agree = λ later h. evict-evict c.window_ms now later log h ∙ a.agree later h;
    bounded = a.bounded;
  }

  Agrees-push :
      length log < c.max_requests
      → evict c.window_ms now log ≡ log
      → Agrees c now log acc
      → Agrees c now (log ++ now ∷ []) (acc ++ now ∷ [])
  Agrees-push room e a = record {
    past = All-append (λ s. s ≤ now) acc (now ∷ []) a.past (omega arith);
    ordered = Ascending-snoc acc now a.ordered a.past;
    log_past = All-append (λ s. s ≤ now) log (now ∷ []) a.log_past (omega arith);
    log_ordered = Ascending-snoc log now a.log_ordered a.log_past;
    agree = λ later h. rw (
      evict-snoc c.window_ms later now log a.log_past,
      evict-snoc c.window_ms later now acc a.past,
      a.agree later h,
    );
    bounded =
        snoc_bounded c.window_ms c.max_requests now acc a.past a.ordered
          (rw (← a.agree now (omega arith), e) room) a.bounded;
  }

-- The times that one request under the key adds to its history.
abbrev added : RateLimiter → String → ℕ → List ℕ
added r key now = if (check r key now).1.allowed then now ∷ [] else []

checked-Agrees :
    (key : String) (r : RateLimiter) (acc : List ℕ) (now : ℕ)
    → r.config.block_on_limit ≡ true
    → Agrees r.config now (log_of key r) acc
    → Agrees r.config now (checked_log r key now) (acc ++ added r key now)
unfolding checked_log
checked-Agrees key r acc now b a = elim (Bool-cases (is_full r key now)) [
  | inl full ↦ rw (full, allowed_of_full r key now full b, append-nil) (Agrees-evict r.config a)
  | inr room ↦
      rw (room, allowed_of_room r key now room)
        (Agrees-push r.config (ground arith)
          (evict-evict r.config.window_ms now now (log_of key r) (omega arith))
          (Agrees-evict r.config a))
]

check-Tracks :
    (key k : String) {last : ℕ} (r : RateLimiter) (acc : List ℕ) (now : ℕ)
    → r.config.block_on_limit ≡ true
    → last ≤ now
    → Tracks key last r acc
    → Tracks key now (check r k now).0 (acc ++ admitted key r now (request k))
unfolding admitted
check-Tracks key k r acc now b o t = record {
  distinct = check-Distinct r k now t.distinct;
  agrees =
      rw (check-config r k now, log_of-check r k key now)
        (elim (Bool-cases (k == key)) [
          | inl same ↦ rw same (
              subst (λ j. Agrees r.config now (checked_log r j now) (acc ++ added r j now))
                (sym ((eq_iff k key).0 same))
                (checked-Agrees key r acc now b (Agrees-later r.config o t.agrees)))
          | inr other ↦ rw (other, append-nil) (Agrees-later r.config o t.agrees)
        ]);
}

cleanup-Tracks :
    (key : String) {last : ℕ} (r : RateLimiter) (acc : List ℕ) (now : ℕ)
    → last ≤ now
    → Tracks key last r acc
    → Tracks key now (prune_expired_logs r now) acc
unfolding prune_expired_logs
cleanup-Tracks key r acc now o t = record {
  distinct = prune_logs-Distinct r.config.window_ms now r.logs t.distinct;
  agrees =
      rw
        (
          log-prune r.config.window_ms now key r.logs t.distinct,
          active-eq-evict r.config.window_ms now (log_of key r) t.agrees.log_ordered,
        )
        (Agrees-evict r.config (Agrees-later r.config o t.agrees));
}

run-Tracks :
    (key : String) (last : ℕ) (r : RateLimiter) (acc : List ℕ) (es : List (ℕ × Event))
    → r.config.block_on_limit ≡ true
    → InOrder last es
    → Tracks key last r acc
    → (t : ℕ)
    → count_within r.config.window_ms t (acc ++ allowed_times key r es) ≤ r.config.max_requests
unfolding allowed_times prune_expired_logs
run-Tracks key last r acc [] b o t = rw append-nil t.agrees.bounded
run-Tracks key last r acc ((now, request k) ∷ es) b o t =
    let later =
      run-Tracks key now (check r k now).0 (acc ++ admitted key r now (request k)) es
        (rw check-config b) o.1 (check-Tracks key k r acc now b o.0 t) in
    rw (check-config r k now, append_assoc) at later
run-Tracks key last r acc ((now, cleanup) ∷ es) b o t =
    run-Tracks key now (prune_expired_logs r now) acc es b o.1 (cleanup-Tracks key r acc now o.0 t)

-- A limiter that blocks and is made with any configuration: whatever the requests and the cleanup
-- ticks that follow, as long as the clock does not run backwards, the requests under one key that
-- were allowed within any span of the window's length are at most the configured maximum.
pub allowed_times_bounded :
    (p : PartialConfig) (key : String) (es : List (ℕ × Event)) (t : ℕ)
    → (create p).config.block_on_limit ≡ true
    → InOrder 0 es
    → count_within (create p).config.window_ms t (allowed_times key (create p) es)
      ≤ (create p).config.max_requests
unfolding create get
allowed_times_bounded p key es t b o = run-Tracks key 0 (create p) [] es b o start t
  where
    start : Tracks key 0 (create p) []
    start = record {
      distinct = tt;
      agrees = record {
        past = tt;
        ordered = tt;
        log_past = tt;
        log_ordered = tt;
        agree = λ now h. refl;
        bounded = λ t. omega arith;
      };
    }
