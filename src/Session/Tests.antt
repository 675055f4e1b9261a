-- ===== src/Session/Tests.antt =====
-- Runs of src/session.ts, and its theorems at concrete inputs.
use oaslananka_lab_mcp_ssh_t.Prelude.{
  ℕ, ◌+◌, ◌≤◌, ◌<◌, String, ◌≡◌, refl, ◌↔◌, ◌⊎◌, true, false, none, some, [], ◌∷◌, ◌++◌, arith,
  length,
}
use oaslananka_lab_mcp_ssh_t.StringMap
use oaslananka_lab_mcp_ssh_t.StringMap.{StringMap}
use oaslananka_lab_mcp_ssh_t.Text.{Text, codes, text_eq}
use oaslananka_lab_mcp_ssh_t.Policy.Engine.{enforce, truthy}
use oaslananka_lab_mcp_ssh_t.Session.{
  create, new_session, resolve_host_key_policy, make_room, new_opening, policy_verdict,
  is_root_denied, begin_in, SessionManager, SshSession, Security, ConnectionParams, Opening,
  connecting, strict, finish_each, open_begin, open_finish, oldest_session, get_session, touch,
  cleanup_expired_sessions,
}
use oaslananka_lab_mcp_ssh_t.Session.Lifecycle.{
  Step, World, Steps, done, next, begins, connects, time_passes,
}
use oaslananka_lab_mcp_ssh_t.Session.Auth.{Environment}
use oaslananka_lab_mcp_ssh_t.Session.Cleanup.{cleanup-unexpired, unexpired}
use oaslananka_lab_mcp_ssh_t.Session.Capacity.{open-within_limit}
use oaslananka_lab_mcp_ssh_t.Session.Eviction.{oldest_session-NoneBefore, Holds, NoneBefore}
use oaslananka_lab_mcp_ssh_t.Session.HostVerifier.{
  Asks, host_verifier-Trusts, Trusts, host_verifier,
}
use oaslananka_lab_mcp_ssh_t.HostKeys.{normalize_sha256_fingerprint}
use oaslananka_lab_mcp_ssh_t.Session.Types.{HostKeyPolicy}
use oaslananka_lab_mcp_ssh_t.Session.Reachable.{start, reachable-get_session}

abbrev params : ConnectionParams
params = record {
  host = codes "h";
  policy_host = none;
  username = codes "deploy";
  port = none;
  auth = none;
  password = none;
  private_key = none;
  private_key_path = none;
  passphrase = none;
  ttl_ms = none;
  strict_host_key_checking = none;
  host_key_policy = none;
  known_hosts_path = none;
  expected_host_key_sha256 = none;
  policy_mode = none;
}

abbrev security : Security
security = record {
  allow_root_login = false;
  host_key_policy = strict;
  known_hosts_path = codes "k";
}

abbrev opening : String → ℕ → Opening
opening id now = record {
  session_id = id;
  now = now;
  ttl = 900000;
  params = params;
  policy_mode = enforce;
  host_key_policy = strict;
}

-- A manager for one session, and it with a session.
abbrev empty : SessionManager
empty = record { sessions = []; max_sessions = 1; default_ttl_ms = 900000; closing = [] }

abbrev session : String → ℕ → SshSession
session id now = record {
  info = record {
    session_id = id;
    host = codes "h";
    username = codes "deploy";
    port = 22;
    created_at = now;
    expires_at = now + 900000;
    last_used = now;
    policy_mode = enforce;
    host_key_policy = strict;
  };
  connection_params = params;
  sftp = true;
}

abbrev full : SessionManager
full = record empty { sessions = ("a", session "a" 0) ∷ [] }

begin_run : (open_begin security none full params "b" 5).1 ≡ connecting (opening "b" 5)
unfolding open_begin begin_in is_root_denied policy_verdict new_opening resolve_host_key_policy
    text_eq
begin_run = refl

-- Two opens that overlap leave two sessions where one is the limit.
overlap_run :
    length
      (open_finish
        (open_finish (open_begin security none empty params "b" 5).0 (opening "a" 5) true).0
        (opening "b" 5)
        true).0.sessions
    ≡ 2
unfolding open_begin begin_in is_root_denied policy_verdict new_opening text_eq make_room
    open_finish StringMap.set
overlap_run = refl

open-within_limit_example :
    let begun = (open_begin security none full params "b" 5).0 in
    length (open_finish (finish_each begun begun.closing) (opening "b" 5) true).0.sessions ≤ 1
open-within_limit_example =
    open-within_limit security none full params "b" 5 (opening "b" 5) true refl (omega arith)
      (omega arith) (omega arith, tt) begin_run

oldest_session-NoneBefore_example :
    ((oldest_session full 5 ≡ none) × NoneBefore 5 full.sessions)
    ⊎ ((id : String) × (s : SshSession) × (oldest_session full 5 ≡ some id)
        × Holds full.sessions id s
        × (s.info.last_used < 5)
        × NoneBefore s.info.last_used full.sessions)
oldest_session-NoneBefore_example = oldest_session-NoneBefore full 5

cleanup-unexpired_example :
    let cleaned = cleanup_expired_sessions full 900001 in
    StringMap.get "a" (finish_each cleaned cleaned.closing).sessions
    ≡ unexpired 900001 (StringMap.get "a" full.sessions)
unfolding StringMap.get
cleanup-unexpired_example = cleanup-unexpired full 900001 "a" refl (refl, tt)

found_run : (get_session full "a" 5).1 ≡ some (touch 5 (session "a" 0))
unfolding get_session StringMap.get
found_run = refl

-- A manager that opens a session at the time 0 and is asked for it at the time 5.
abbrev opened : World
opened = record { manager = record full { max_sessions = 20 }; now = 5; opening = [] }

abbrev fresh : World
fresh = record { manager = record empty { max_sessions = 20 }; now = 0; opening = [] }

abbrev waiting_world : World
waiting_world = record fresh { opening = opening "a" 0 ∷ [] }

abbrev new_world : World
new_world = record { manager = record full { max_sessions = 20 }; now = 0; opening = [] }

begins_run : Step security none fresh waiting_world
unfolding open_begin begin_in is_root_denied policy_verdict new_opening resolve_host_key_policy
    text_eq make_room
begins_run = begins fresh params "a"

connects_run : Step security none waiting_world new_world
unfolding open_finish new_session StringMap.set
connects_run = connects waiting_world [] [] (opening "a" 0) true refl

opened-Steps : Steps security none (start none none 0) opened
unfolding create
opened-Steps = next {v = waiting_world} begins_run (
    next {v = new_world} connects_run
      (next {v = opened} (time_passes new_world 5 (omega arith)) (done opened)))

reachable_run : (get_session opened.manager "a" 5).1 ≡ some (touch 5 (session "a" 0))
unfolding get_session StringMap.get
reachable_run = refl

reachable-get_session_example :
    (◌≡◌ {A = String} "a" "a") × (0 ≤ 5) × (◌≡◌ {A = ℕ} 5 5) × (5 ≤ 900000)
unfolding touch
reachable-get_session_example =
    reachable-get_session security none none none 0 opened "a" (touch 5 (session "a" 0))
      opened-Steps reachable_run

-- A machine with one key and no agent.
abbrev env : Environment
env = record {
  auth_sock = none;
  key_dir = codes "d";
  can_read = λ path. text_eq path (codes "d/id_rsa");
  read_file = λ path. some (codes "secret");
  join = λ a b. a ++ (b'/' ∷ b);
}

abbrev pinned : ConnectionParams
pinned = record params { expected_host_key_sha256 = some (codes "SHA256:K") }

host_verifier-Trusts_example :
    ((expected : Text) × (truthy pinned.expected_host_key_sha256 ≡ some expected)
      × (((host_verifier (λ s c. none) (λ b. none) (λ p. none) security pinned [] (codes "K")).1
            ≡ true)
          ↔ (normalize_sha256_fingerprint (codes "K") ≡ normalize_sha256_fingerprint expected)))
    ⊎ ((truthy pinned.expected_host_key_sha256 ≡ none)
        × ((policy : HostKeyPolicy) × Asks
              (λ s c. none)
              (λ b. none)
              (λ p. none)
              security
              pinned
              policy
            × (((host_verifier
                    (λ s c. none)
                    (λ b. none)
                    (λ p. none)
                    security
                    pinned
                    []
                    (codes "K")).1
                  ≡ true)
                ↔ Trusts
                    (λ s c. none)
                    (λ b. none)
                    (λ p. none)
                    security
                    pinned
                    policy
                    []
                    (codes "K"))))
host_verifier-Trusts_example =
    host_verifier-Trusts (λ s c. none) (λ b. none) (λ p. none) security pinned [] (codes "K")
