-- ===== src/Remote/ControlPlane/Calls.antt =====
-- What holds after a call of a remote tool of src/remote/control-plane.ts, from what holds after each
-- operation that it may run.
use oaslananka_lab_mcp_ssh_t.Remote.Store.Types.{
  Reply-cases, RemoteToolName, thrown, RemotePrincipal, RemoteAgentRecord, returned, Args, Reply,
  list_hosts, list_agents, create_enrollment_token, get_agent_install_command, get_system_status,
  tail_logs, restart_service, docker_ps, docker_logs, docker_restart, file_read, file_write,
  run_shell, run_shell_as_root, update_agent_policy, revoke_agent, get_audit_events,
}
use oaslananka_lab_mcp_ssh_t.Remote.ControlPlane.State.{RemoteConfig, External, ControlPlane}
use oaslananka_lab_mcp_ssh_t.Remote.ControlPlane.Tools.{
  tool_capability, call_agent_tool, require_agent, call_remote_tool, run_tool, Draws, on_agent,
  ToolResult, map_reply,
}
use oaslananka_lab_mcp_ssh_t.Remote.ControlPlane.Enroll.{create_token}
use oaslananka_lab_mcp_ssh_t.Remote.ControlPlane.Policies.{revoke, change_policy}
use oaslananka_lab_mcp_ssh_t.Remote.Scopes.{has_capability}
use oaslananka_lab_mcp_ssh_t.Prelude.{ℕ, String, ◌≡◌, refl, inl, inr, Bool-cases}

pub map_reply-state :
    {A B : Type 0} (f : A → B) (r : Reply A × ControlPlane) → (map_reply f r).1 ≡ r.1
map_reply-state f (returned a, s) = refl
map_reply-state f (thrown failure, s) = refl

on_agent-state :
    (P : ControlPlane → Type 0) (user_id : String) (args : Args) (s : ControlPlane)
    (act : RemoteAgentRecord → Reply ToolResult × ControlPlane)
    → P s
    → ((found : RemoteAgentRecord) → P (act found).1)
    → P (on_agent user_id args s act).1
on_agent-state P user_id args s act p q = elim (Reply-cases (require_agent user_id args s.store)) [
  | inl (e, bad) ↦ rw (bad, on_agent) p
  | inr (found, ok) ↦ rw (ok, on_agent) (q found)
]

module _ (P : ControlPlane → Type 0) (ext : External) (config : RemoteConfig) where
  module _ (principal : RemotePrincipal) (args : Args) (draws : Draws) (now : ℕ)
      (s : ControlPlane) where
    agent_tool-state :
        (tool : RemoteToolName)
        → P s
        → ((found : RemoteAgentRecord)
            → P
                (call_agent_tool ext config principal tool args draws.action_id draws.nonce now s
                  found).1)
        → P
            (on_agent principal.user_id args s
              (call_agent_tool ext config principal tool args draws.action_id draws.nonce now s)).1
    agent_tool-state tool p called = on_agent-state P principal.user_id args s _ p called

    run_tool-state :
        (tool : RemoteToolName)
        → P s
        → P
            (create_token ext config principal args draws.agent_id draws.token draws.token_id now
              s).1
        → ((found : RemoteAgentRecord)
            → P (change_policy ext config principal found args.policy draws.nonce now s).1)
        → ((found : RemoteAgentRecord) → P (revoke principal found now s).1)
        → ((found : RemoteAgentRecord)
            → P
                (call_agent_tool ext config principal tool args draws.action_id draws.nonce now s
                  found).1)
        → P (run_tool ext config principal tool args draws now s).1
    unfolding run_tool
    run_tool-state list_hosts p created changed gone called = p
    run_tool-state list_agents p created changed gone called = p
    run_tool-state get_audit_events p created changed gone called = p
    run_tool-state create_enrollment_token p created changed gone called =
        rw map_reply-state created
    run_tool-state get_agent_install_command p created changed gone called =
        on_agent-state P principal.user_id args s _ p (λ found. p)
    run_tool-state update_agent_policy p created changed gone called =
        on_agent-state P principal.user_id args s _ p (λ found. rw map_reply-state (changed found))
    run_tool-state revoke_agent p created changed gone called =
        on_agent-state P principal.user_id args s _ p (λ found. rw map_reply-state (gone found))
    run_tool-state get_system_status p created changed gone called =
        agent_tool-state get_system_status p called
    run_tool-state tail_logs p created changed gone called = agent_tool-state tail_logs p called
    run_tool-state restart_service p created changed gone called =
        agent_tool-state restart_service p called
    run_tool-state docker_ps p created changed gone called = agent_tool-state docker_ps p called
    run_tool-state docker_logs p created changed gone called = agent_tool-state docker_logs p called
    run_tool-state docker_restart p created changed gone called =
        agent_tool-state docker_restart p called
    run_tool-state file_read p created changed gone called = agent_tool-state file_read p called
    run_tool-state file_write p created changed gone called = agent_tool-state file_write p called
    run_tool-state run_shell p created changed gone called = agent_tool-state run_shell p called
    run_tool-state run_shell_as_root p created changed gone called =
        agent_tool-state run_shell_as_root p called

    -- The same for `callRemoteTool`, which may refuse the call first.
    pub call_remote_tool-state :
        (tool : RemoteToolName)
        → P s
        → P
            (create_token ext config principal args draws.agent_id draws.token draws.token_id now
              s).1
        → ((found : RemoteAgentRecord)
            → P (change_policy ext config principal found args.policy draws.nonce now s).1)
        → ((found : RemoteAgentRecord) → P (revoke principal found now s).1)
        → ((found : RemoteAgentRecord)
            → P
                (call_agent_tool ext config principal tool args draws.action_id draws.nonce now s
                  found).1)
        → P (call_remote_tool ext config principal tool args draws now s).1
    unfolding call_remote_tool
    call_remote_tool-state tool p created changed gone called =
        elim (Bool-cases (has_capability principal.capabilities (tool_capability tool))) [
          | inr denied ↦ rw (denied, call_remote_tool) p
          | inl granted ↦
              rw (granted, call_remote_tool) (run_tool-state tool p created changed gone called)
        ]
