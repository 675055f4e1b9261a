-- ===== src/Session.antt =====
-- `SessionManager` of src/session.ts. A method runs without interruption up to each `await`, so it
-- is one definition for each such part: `close_begin` and `close_finish` are `closeSession` before
-- and after its listeners, `open_begin` and `open_finish` are `openSession` before and after the
-- connection. The time and the new identifier are arguments.
mod Types
pub mod Auth
pub mod HostVerifier
pub mod Eviction
pub mod Lookup
pub mod Cleanup
pub mod Lifecycle
pub mod Reachable
pub mod Reconnect
pub mod Capacity
mod Tests
use oaslananka_lab_mcp_ssh_t.Prelude.{
  ℕ, ◌+◌, ◌*◌, String, Bool, true, false, not, ◌&&◌, ◌||◌, Option, none, some, List, [], ◌∷◌, ◌++◌,
  map, ◌==◌, ltb, leb, if◌then◌else◌, get_or, is_some, length, keep,
}
use Types.*
pub use Types.*
use oaslananka_lab_mcp_ssh_t.StringMap
use oaslananka_lab_mcp_ssh_t.StringMap.{StringMap}
use oaslananka_lab_mcp_ssh_t.Text.{codes, text_eq}
use oaslananka_lab_mcp_ssh_t.Policy.Engine.{PolicyMode, PolicyContext, enforce, explain, ssh_open}
use oaslananka_lab_mcp_ssh_t.Policy.Evaluate.{Verdict}

-- the constructor
pub create : Option ℕ → Option ℕ → SessionManager
create max_sessions default_ttl_ms = record {
  sessions = [];
  max_sessions = get_or max_sessions 20;
  default_ttl_ms = get_or default_ttl_ms 900000;
  closing = [];
}

pub resolve_host_key_policy : Security → ConnectionParams → HostKeyPolicy
resolve_host_key_policy security params = elim params.host_key_policy [
  | some policy ↦ policy
  | none ↦ elim params.strict_host_key_checking [
    | some check ↦ if check then strict else insecure
    | none ↦ security.host_key_policy
  ]
]

-- `closeSession` up to its listeners; the result is whether there is such a session.
pub close_begin : SessionManager → String → SessionManager × Bool
close_begin m id =
    if StringMap.has id m.sessions
    then (record m { closing = m.closing ++ (id ∷ []) }, true)
    else (m, false)

drop_one : String → List String → List String
drop_one id [] = []
drop_one id (other ∷ ids) = let rest = drop_one id ids in if other == id then ids else other ∷ rest

-- `closeSession` after its listeners
pub close_finish : SessionManager → String → SessionManager
unfolding drop_one
close_finish m id = record m {
  sessions = StringMap.delete id m.sessions;
  closing = drop_one id m.closing;
}

-- One round of the loop of `evictOldestSession`: the oldest time so far, and whose it is.
pub older : ℕ × Option String → String × SshSession → ℕ × Option String
older (time, found) (id, s) =
    if ltb s.info.last_used time then (s.info.last_used, some id) else (time, found)

pub oldest_from : ℕ × Option String → StringMap SshSession → ℕ × Option String
oldest_from best [] = best
oldest_from best (entry ∷ rest) = oldest_from (older best entry) rest

pub oldest_session : SessionManager → ℕ → Option String
oldest_session m now = (oldest_from (now, none) m.sessions).1

pub evict_oldest_session : SessionManager → ℕ → SessionManager
evict_oldest_session m now = elim (oldest_session m now) [
  | none ↦ m
  | some id ↦ (close_begin m id).0
]

pub has_expired : ℕ → SshSession → Bool
has_expired now s = ltb s.info.expires_at now

pub touch : ℕ → SshSession → SshSession
touch now s = record s { info = record s.info { last_used = now } }

-- The two readings of the clock are one time.
pub get_session : SessionManager → String → ℕ → SessionManager × Option SshSession
unfolding has_expired touch
get_session m id now = elim (StringMap.get id m.sessions) [
  | none ↦ (m, none)
  | some s ↦
      if has_expired now s
      then ((close_begin m id).0, none)
      else (record m { sessions = StringMap.set id (touch now s) m.sessions }, some (touch now s))
]

-- Begins to close each of the sessions.
pub close_each : SessionManager → List String → SessionManager
close_each m [] = m
close_each m (id ∷ ids) = close_each (close_begin m id).0 ids

pub expired_ids : ℕ → StringMap SshSession → List String
expired_ids now sessions = StringMap.keys (keep (λ entry. has_expired now entry.1) sessions)

pub cleanup_expired_sessions : SessionManager → ℕ → SessionManager
cleanup_expired_sessions m now = close_each m (expired_ids now m.sessions)

pub close_all_sessions : SessionManager → SessionManager
close_all_sessions m = close_each m (StringMap.keys m.sessions)

-- The calls that wait for their listeners go on.
pub finish_each : SessionManager → List String → SessionManager
finish_each m [] = m
finish_each m (id ∷ ids) = finish_each (close_finish m id) ids

pub get_active_sessions : SessionManager → List SessionInfo
get_active_sessions m = map (λ s. s.info) (StringMap.values m.sessions)

-- Makes room where the sessions are at the limit.
pub make_room : SessionManager → ℕ → SessionManager
make_room m now = if leb m.max_sessions (length m.sessions) then evict_oldest_session m now else m

-- The policy's `assertAllowed`, where the manager has a policy.
module _ (security : Security) (policy : Option (PolicyContext → Verdict)) where
  open_context : ConnectionParams → PolicyMode → PolicyContext
  open_context params mode = record {
    action = ssh_open;
    host = some (get_or params.policy_host params.host);
    username = some params.username;
    command = none;
    path = none;
    secondary_path = none;
    local_bind_host = none;
    local_port = none;
    remote_host = none;
    remote_port = none;
    mode = some mode;
    raw_sudo = false;
    destructive = false;
  }

  is_root_denied : ConnectionParams → Bool
  is_root_denied params = text_eq params.username (codes "root") && not security.allow_root_login

  -- Whether the policy throws, and the verdict that it gives.
  policy_verdict : ConnectionParams → PolicyMode → Bool × Bool
  policy_verdict params mode = elim policy [
    | none ↦ (false, true)
    | some assert_allowed ↦
        let verdict = assert_allowed (open_context params mode) in
        (verdict.thrown, verdict.decision.allowed)
  ]

  new_opening : SessionManager → ConnectionParams → String → ℕ → PolicyMode → Opening
  new_opening m params id now mode = record {
    session_id = id;
    now = now;
    ttl = get_or params.ttl_ms m.default_ttl_ms;
    params = params;
    policy_mode = mode;
    host_key_policy = resolve_host_key_policy security params;
  }

  explanation : Opening → Bool → SessionResult
  explanation o allowed = record {
    session_id = o.session_id;
    host = o.params.host;
    username = o.params.username;
    sftp_available = false;
    expires_in_ms = o.ttl;
    policy_mode = o.policy_mode;
    host_key_policy = o.host_key_policy;
    would_connect = some (not (is_root_denied o.params) && allowed);
  }

  begin_in : PolicyMode → SessionManager → Opening → Bool → SessionManager × OpenStart
  begin_in explain m o allowed = (m, explained (explanation o allowed))
  begin_in enforce m o allowed =
      if is_root_denied o.params then (m, root_denied) else (make_room m o.now, connecting o)

  pub open_begin : SessionManager → ConnectionParams → String → ℕ → SessionManager × OpenStart
  unfolding begin_in make_room is_root_denied policy_verdict new_opening explanation open_context
  open_begin m params id now =
      let mode = get_or params.policy_mode enforce in
      let (thrown, allowed) = policy_verdict params mode in
      if thrown
      then (m, denied_by_policy)
      else begin_in mode m (new_opening m params id now mode) allowed

pub new_session : Opening → Bool → SshSession
new_session o sftp = record {
  info = record {
    session_id = o.session_id;
    host = o.params.host;
    username = o.params.username;
    port = get_or o.params.port 22;
    created_at = o.now;
    expires_at = o.now + o.ttl;
    last_used = o.now;
    policy_mode = o.policy_mode;
    host_key_policy = o.host_key_policy;
  };
  connection_params = o.params;
  sftp = sftp;
}

-- `openSession` after a connection that succeeds; the flag says whether SFTP is available. A
-- connection that fails changes nothing.
pub open_finish : SessionManager → Opening → Bool → SessionManager × SessionResult
unfolding new_session
open_finish m o sftp = (
  record m { sessions = StringMap.set o.session_id (new_session o sftp) m.sessions },
  record {
    session_id = o.session_id;
    host = o.params.host;
    username = o.params.username;
    sftp_available = sftp;
    expires_in_ms = o.ttl;
    policy_mode = o.policy_mode;
    host_key_policy = o.host_key_policy;
    would_connect = none;
  },
)

module _ (security : Security) (policy : Option (PolicyContext → Verdict)) where
  -- What follows the start of an open: a connection, with or without SFTP, or none.
  pub open_complete :
      SessionManager × OpenStart → Option Bool → SessionManager × Option SessionResult
  open_complete (m, explained result) connection = (m, some result)
  open_complete (m, denied_by_policy) connection = (m, none)
  open_complete (m, root_denied) connection = (m, none)
  open_complete (m, connecting o) none = (m, none)
  open_complete (m, connecting o) (some sftp) =
      let (opened, result) = open_finish m o sftp in (opened, some result)

  -- Closes the session and opens another with its parameters; no result is an error or a session
  -- that is not there.
  pub reconnect_session :
      SessionManager → String → String → ℕ → Option Bool → SessionManager × Option SessionResult
  unfolding open_complete
  reconnect_session m id new_id now connection = elim (StringMap.get id m.sessions) [
    | none ↦ (m, none)
    | some s ↦
        let closed = close_finish (close_begin m id).0 id in
        open_complete (open_begin security policy closed s.connection_params new_id now) connection
  ]

  -- The health check and the connection are arguments. Both results of the reconnection give no
  -- session.
  pub get_session_with_reconnect :
      SessionManager → String → String → ℕ → Bool → Option Bool → SessionManager × Option SshSession
  get_session_with_reconnect m id new_id now alive connection =
      let (found, session) = get_session m id now in
      if not (is_some session) || alive
      then (found, session)
      else ((reconnect_session found id new_id now connection).0, none)
