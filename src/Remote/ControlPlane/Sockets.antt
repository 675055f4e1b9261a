-- ===== src/Remote/ControlPlane/Sockets.antt =====
-- The connections of agents, src/remote/control-plane.ts and src/remote/websocket.ts: sending and
-- closing, with the handlers that a close runs, and the hello of an agent.
use oaslananka_lab_mcp_ssh_t.Remote.ControlPlane.State.{
  agent_ready, cleanup_ephemeral_state, error_message, has_number, AgentHelloEnvelope, audit,
  External, Message, ControlPlane, AgentConnection,
}
use oaslananka_lab_mcp_ssh_t.Remote.Store.Types.{
  revoked, online, action_replay_detected, action_expired, offline, signature_invalid,
  agent_not_found, info, warn, RemoteAgentRecord, RemoteErrorCode,
}
use oaslananka_lab_mcp_ssh_t.Remote.Store.Tables.{RemoteStore}
use oaslananka_lab_mcp_ssh_t.StringMap.{has, delete, set, StringMap, get}
use oaslananka_lab_mcp_ssh_t.Remote.Store.Records.{update_agent, get_agent}
use oaslananka_lab_mcp_ssh_t.Remote.ControlPlane.Nonces.{remember_nonce, agent_nonce_ttl_ms}
use oaslananka_lab_mcp_ssh_t.Prelude.{
  ℕ, ◌+◌, ◌-◌, String, Bool, true, false, not, Option, none, some, List, [], ◌∷◌, ◌++◌, ◌==◌, ltb,
  eqb, if◌then◌else◌, get_or,
}

-- `sendJson`: nothing is sent on a closed connection.
unfoldable pub send_json : ℕ → Message → ControlPlane → ControlPlane
send_json connection message s =
    if has_number s.closed connection
    then s
    else record s { messages = s.messages ++ ((connection, message) ∷ []) }

abbrev pub is_revoked_agent : RemoteAgentRecord → Bool
is_revoked_agent agent = elim agent.status [ revoked ↦ true | _ ↦ false ]

-- The store after an agent that is not revoked went offline.
unfoldable pub set_offline : String → ℕ → RemoteStore → RemoteStore
set_offline agent_id now store = elim (get_agent agent_id store) [
  | none ↦ store
  | some latest ↦
      if is_revoked_agent latest
      then store
      else update_agent (record latest { status = offline; updated_at = now }) store
]

-- The handler that `handleAgentHello` gives to `onClose`, with the agent that it remembers.
unfoldable pub on_close : ℕ → RemoteAgentRecord → ℕ → ControlPlane → ControlPlane
on_close connection agent now s = elim (get agent.id s.agent_connections) [
  | none ↦ s
  | some live ↦
      if not (eqb live.connection connection)
      then s
      else audit (some agent.user_id) (some agent.id) none "agent_disconnected" info now (record s {
        agent_connections = delete agent.id s.agent_connections;
        store = set_offline agent.id now s.store;
      })
]

-- The loop of `notifyClose` over the handlers of the connection.
unfoldable pub run_close_handlers :
    ℕ → ℕ → List (ℕ × RemoteAgentRecord) → ControlPlane → ControlPlane
run_close_handlers connection now [] s = s
run_close_handlers connection now ((owner, agent) ∷ handlers) s =
    run_close_handlers connection now handlers
      (if eqb owner connection then on_close connection agent now s else s)

-- `close`, and what a socket that ends calls: the handlers run once.
unfoldable pub close_connection : ℕ → ℕ → ControlPlane → ControlPlane
close_connection connection now s =
    if has_number s.closed connection
    then s
    else run_close_handlers connection now s.close_handlers
        (record s { closed = connection ∷ s.closed })

-- An error message, after which the connection is closed.
unfoldable pub refuse : ℕ → RemoteErrorCode → ℕ → ControlPlane → ControlPlane
refuse connection code now s =
    close_connection connection now (send_json connection (error_message code) s)

-- `verifyEnvelope` on a hello
unfoldable pub verify_hello : External → AgentHelloEnvelope → String → Bool
verify_hello ext hello public_key =
    if hello.signature == "" then false else ext.node_verify_hello hello public_key

-- The age that is more than five minutes, in either direction; that of a timestamp which cannot be
-- read is no number, and not more.
abbrev is_stale : ℕ → Option ℕ → Bool
is_stale now none = false
is_stale now (some timestamp) = ltb 300000 ((now - timestamp) + (timestamp - now))

abbrev is_on : Option AgentConnection → ℕ → Bool
is_on none connection = false
is_on (some live) connection = eqb live.connection connection

-- The hello is accepted: its nonce is remembered, another connection of the agent is closed, and the
-- agent is online on this one.
unfoldable pub accept_hello :
    RemoteAgentRecord
    → ℕ
    → AgentHelloEnvelope
    → StringMap ℕ
    → Option AgentConnection
    → ℕ
    → ControlPlane
    → ControlPlane
accept_hello agent connection hello hello_nonces existing now s =
    let t = record s {
      agent_hello_nonces =
          set agent.id (set hello.nonce (now + agent_nonce_ttl_ms) hello_nonces)
            s.agent_hello_nonces;
    } in
    let u : ControlPlane = elim existing [
      | none ↦ t
      | some old ↦ close_connection old.connection now t
    ] in
    let live : AgentConnection = record {
      agent = agent;
      connection = connection;
      seen_nonces = remember_nonce [] hello.nonce now;
    } in
    let connected =
      audit (some agent.user_id) (some agent.id) none "agent_connected" info now (record u {
        agent_connections = set agent.id live u.agent_connections;
        store =
            update_agent
              (record agent {
                status = online;
                last_seen_at = some now;
                host_metadata = some hello.host;
                updated_at = now;
              })
              u.store;
        close_handlers = u.close_handlers ++ ((connection, agent) ∷ []);
      }) in
    send_json connection (agent_ready agent.id agent.policy) connected

abbrev warned : RemoteAgentRecord → String → ℕ → ControlPlane → ControlPlane
warned agent event_type now s =
    audit (some agent.user_id) (some agent.id) none event_type warn now s

unfoldable pub handle_agent_hello :
    External → ℕ → AgentHelloEnvelope → ℕ → ControlPlane → ControlPlane
handle_agent_hello ext connection hello now s = elim (get_agent hello.agent_id s.store) [
  | none ↦ refuse connection agent_not_found now s
  | some agent ↦ elim agent.public_key [
    | none ↦ refuse connection agent_not_found now s
    | some public_key ↦
        if is_revoked_agent agent
        then refuse connection agent_not_found now s
        else if not (verify_hello ext hello public_key)
        then refuse connection signature_invalid now (warned agent "agent_signature_invalid" now s)
        else if is_stale now hello.timestamp
        then refuse connection action_expired now (warned agent "agent_hello_expired" now s)
        else let t = cleanup_ephemeral_state now s in
          let existing = get agent.id t.agent_connections in
          let hello_nonces = get_or (get agent.id t.agent_hello_nonces) [] in
          if is_on existing connection
          then refuse connection action_replay_detected now
              (warned agent "agent_duplicate_hello_rejected" now t)
          else if has hello.nonce hello_nonces
          then refuse connection action_replay_detected now
              (warned agent "agent_hello_replay_detected" now t)
          else accept_hello agent connection hello hello_nonces existing now t
  ]
]
