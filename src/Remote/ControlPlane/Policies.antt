-- ===== src/Remote/ControlPlane/Policies.antt =====
-- The update of an agent's policy and the revocation of an agent, src/remote/control-plane.ts.
use oaslananka_lab_mcp_ssh_t.Remote.Store.Types.{
  warn, revoked, returned, invalid_scope, failed, thrown, Reply, RemoteAgentRecord, RemotePrincipal,
}
use oaslananka_lab_mcp_ssh_t.Remote.ControlPlane.State.{
  audit, policy_update, PolicyUpdateEnvelope, RemoteConfig, ControlPlane, External,
}
use oaslananka_lab_mcp_ssh_t.Remote.AgentPolicy.{merge_custom_policy, AgentPolicy, PolicyPatch}
use oaslananka_lab_mcp_ssh_t.StringMap.{delete, get}
use oaslananka_lab_mcp_ssh_t.Remote.ControlPlane.Sockets.{send_json, close_connection}
use oaslananka_lab_mcp_ssh_t.Remote.Scopes.{has_capability}
use oaslananka_lab_mcp_ssh_t.Text.{codes}
use oaslananka_lab_mcp_ssh_t.Remote.Store.Records.{update_agent}
use oaslananka_lab_mcp_ssh_t.Prelude.{ℕ, ◌+◌, min, String, not, none, some, if◌then◌else◌}

-- The policy that an update stores.
unfoldable pub capped_policy : RemoteConfig → PolicyPatch → ℕ → AgentPolicy
capped_policy config patch next_version =
    let merged = merge_custom_policy patch in
    record merged {
      max_action_timeout_seconds =
          min merged.max_action_timeout_seconds config.max_action_timeout_seconds;
      max_output_bytes = min merged.max_output_bytes config.max_output_bytes;
      version = next_version;
    }

-- The new policy is signed and sent to the agent when it is connected.
unfoldable pub announce_policy :
    External → RemoteAgentRecord → AgentPolicy → String → ℕ → ControlPlane → ControlPlane
announce_policy ext agent policy nonce now s = elim (get agent.id s.agent_connections) [
  | none ↦ s
  | some live ↦
      let unsigned : PolicyUpdateEnvelope = record {
        agent_id = agent.id;
        policy = policy;
        policy_version = policy.version;
        issued_at = now;
        nonce = nonce;
        signature = "";
      } in
      send_json live.connection
        (policy_update (record unsigned { signature = ext.node_sign_policy_update unsigned })) s
]

-- The agent is the record that the caller resolved before.
unfoldable pub change_policy :
    External
    → RemoteConfig
    → RemotePrincipal
    → RemoteAgentRecord
    → PolicyPatch
    → String
    → ℕ
    → ControlPlane
    → Reply RemoteAgentRecord × ControlPlane
change_policy ext config principal agent patch nonce now s =
    if not (has_capability principal.capabilities (codes "agents.admin"))
    then (thrown (failed invalid_scope 403), s)
    else let policy = capped_policy config patch (agent.policy_version + 1) in
      let updated : RemoteAgentRecord = record agent {
        profile = policy.profile;
        policy = policy;
        policy_version = agent.policy_version + 1;
        updated_at = now;
      } in
      (
        returned updated,
        audit (some principal.user_id) (some agent.id) none "policy_updated" warn now (
            announce_policy ext agent policy nonce now
              (record s { store = update_agent updated s.store })),
      )

-- The connection of an agent is closed and forgotten.
unfoldable pub disconnect : String → ℕ → ControlPlane → ControlPlane
disconnect agent_id now s =
    let t : ControlPlane = elim (get agent_id s.agent_connections) [
      | none ↦ s
      | some live ↦ close_connection live.connection now s
    ] in
    record t { agent_connections = delete agent_id t.agent_connections }

unfoldable pub revoke :
    RemotePrincipal → RemoteAgentRecord → ℕ → ControlPlane → Reply RemoteAgentRecord × ControlPlane
revoke principal agent now s =
    if not (has_capability principal.capabilities (codes "agents.admin"))
    then (thrown (failed invalid_scope 403), s)
    else let updated : RemoteAgentRecord = record agent { status = revoked; updated_at = now } in
      (
        returned updated,
        audit (some principal.user_id) (some agent.id) none "agent_revoked" warn now
            (disconnect agent.id now (record s { store = update_agent updated s.store })),
      )
