-- ===== src/Remote/ControlPlane/Nonces.antt =====
-- The nonces that a connection has used, src/remote/control-plane.ts: a map from a nonce to the time
-- at which it is forgotten.
use oaslananka_lab_mcp_ssh_t.StringMap.{delete, set, has, StringMap}
use oaslananka_lab_mcp_ssh_t.Prelude.{
  ℕ, zero, suc, ◌+◌, String, Bool, not, [], ◌∷◌, ltb, leb, if◌then◌else◌, length, keep,
}

abbrev pub agent_nonce_ttl_ms : ℕ
agent_nonce_ttl_ms = 300000

abbrev pub max_agent_connection_nonces : ℕ
max_agent_connection_nonces = 4096

unfoldable pub prune_nonce_window : StringMap ℕ → ℕ → StringMap ℕ
prune_nonce_window nonces now = keep (λ e. not (leb e.1 now)) nonces

-- The answer, and the map that the test has pruned.
unfoldable pub has_seen_nonce : StringMap ℕ → String → ℕ → Bool × StringMap ℕ
has_seen_nonce nonces nonce now =
    let pruned = prune_nonce_window nonces now in (has nonce pruned, pruned)

-- The loop that drops the oldest nonce while there are too many, on fuel.
unfoldable pub drop_oldest : ℕ → ℕ → StringMap ℕ → StringMap ℕ
drop_oldest most zero nonces = nonces
drop_oldest most (suc fuel) [] = []
drop_oldest most (suc fuel) ((oldest, expires_at) ∷ rest) =
    let next = drop_oldest most fuel (delete oldest ((oldest, expires_at) ∷ rest)) in
    if ltb most (length ((oldest, expires_at) ∷ rest)) then next else (oldest, expires_at) ∷ rest

unfoldable pub remember_nonce : StringMap ℕ → String → ℕ → StringMap ℕ
remember_nonce nonces nonce now =
    let known = set nonce (now + agent_nonce_ttl_ms) (prune_nonce_window nonces now) in
    drop_oldest max_agent_connection_nonces (length known) known
