-- ===== src/Remote/ControlPlane/Tools.antt =====
-- The remote tools, src/remote/control-plane.ts: which capability each one needs, and what a call
-- does.
use oaslananka_lab_mcp_ssh_t.Remote.Store.Types.{
  list_hosts, list_agents, create_enrollment_token, get_agent_install_command, get_system_status,
  tail_logs, restart_service, docker_ps, docker_logs, docker_restart, file_read, file_write,
  run_shell, run_shell_as_root, update_agent_policy, revoke_agent, get_audit_events, warn,
  invalid_scope, agent_not_found, capability_denied, RemotePrincipal, failed, returned, thrown,
  AgentHostMetadata, AuditEvent, RemoteAgentRecord, AgentStatus, Reply, Args, RemoteToolName,
}
use oaslananka_lab_mcp_ssh_t.Remote.ControlPlane.State.{audit, RemoteConfig, ControlPlane, External}
use oaslananka_lab_mcp_ssh_t.Remote.Store.Tables.{RemoteStore}
use oaslananka_lab_mcp_ssh_t.Remote.ControlPlane.Install.{install_command, InstallCommand}
use oaslananka_lab_mcp_ssh_t.Text.{codes, Text}
use oaslananka_lab_mcp_ssh_t.Remote.AgentPolicy.{AgentProfileName}
use oaslananka_lab_mcp_ssh_t.Remote.Store.Records.{
  list_audit, list_agents_of, get_agent_by_alias, get_agent,
}
use oaslananka_lab_mcp_ssh_t.Remote.Scopes.{has_capability}
use oaslananka_lab_mcp_ssh_t.Remote.ControlPlane.Enroll.{create_token}
use oaslananka_lab_mcp_ssh_t.Remote.ControlPlane.Policies.{revoke, change_policy}
use oaslananka_lab_mcp_ssh_t.Remote.ControlPlane.Actions.{dispatch_action}
use oaslananka_lab_mcp_ssh_t.Prelude.{
  ℕ, String, not, Option, none, some, map_option, List, map, ◌==◌, if◌then◌else◌, get_or,
}

-- `TOOL_CAPABILITY_MAP`
unfoldable pub tool_capability : RemoteToolName → Text
tool_capability list_hosts = codes "hosts.read"
tool_capability list_agents = codes "agents.read"
tool_capability create_enrollment_token = codes "agents.admin"
tool_capability get_agent_install_command = codes "agents.admin"
tool_capability get_system_status = codes "system.read"
tool_capability tail_logs = codes "logs.read"
tool_capability restart_service = codes "service.manage"
tool_capability docker_ps = codes "docker.manage"
tool_capability docker_logs = codes "docker.manage"
tool_capability docker_restart = codes "docker.manage"
tool_capability file_read = codes "files.read"
tool_capability file_write = codes "files.write"
tool_capability run_shell = codes "shell.exec"
tool_capability run_shell_as_root = codes "sudo.exec"
tool_capability update_agent_policy = codes "agents.admin"
tool_capability revoke_agent = codes "agents.admin"
tool_capability get_audit_events = codes "audit.read"

-- What `sanitizeAgent` shows.
pub record AgentView : Type 0 where
  pub id : String
  pub alias : String
  pub status : AgentStatus
  pub profile : AgentProfileName
  pub policy_version : ℕ
  pub host_metadata : Option AgentHostMetadata
  pub last_seen_at : Option ℕ
  pub created_at : ℕ
  pub updated_at : ℕ

abbrev pub sanitize_agent : RemoteAgentRecord → AgentView
sanitize_agent agent = record {
  id = agent.id;
  alias = agent.alias;
  status = agent.status;
  profile = agent.profile;
  policy_version = agent.policy_version;
  host_metadata = agent.host_metadata;
  last_seen_at = agent.last_seen_at;
  created_at = agent.created_at;
  updated_at = agent.updated_at;
}

pub record HostView : Type 0 where
  pub id : String
  pub alias : String
  pub status : AgentStatus
  pub host : Option AgentHostMetadata

abbrev host_view : RemoteAgentRecord → HostView
host_view agent = record {
  id = agent.id;
  alias = agent.alias;
  status = agent.status;
  host = agent.host_metadata;
}

-- What a call returns; an action that was sent to an agent is awaited.
pub data ToolResult : Type 0 where
  hosts : List HostView → ToolResult
  agents : List AgentView → ToolResult
  token_created : InstallCommand → String → ToolResult
  install : InstallCommand → ToolResult
  agent : AgentView → ToolResult
  events : List AuditEvent → ToolResult
  awaited : String → ToolResult

unfoldable pub resolve_agent : String → String → RemoteStore → Option RemoteAgentRecord
resolve_agent user_id value store = if value == "" then none else elim (get_agent value store) [
  | none ↦ get_agent_by_alias user_id value store
  | some by_id ↦
      if by_id.user_id == user_id then some by_id else get_agent_by_alias user_id value store
]

unfoldable pub require_agent : String → Args → RemoteStore → Reply RemoteAgentRecord
require_agent user_id args store =
    elim (resolve_agent user_id (get_or args.agent_id_or_alias "") store) [
      | none ↦ thrown (failed agent_not_found 404)
      | some found ↦ returned found
    ]

abbrev pub map_reply : {A B : Type 0} → (A → B) → Reply A × ControlPlane → Reply B × ControlPlane
map_reply f (returned a, s) = (returned (f a), s)
map_reply f (thrown failure, s) = (thrown failure, s)

-- A tool that acts on an agent of the user.
abbrev pub on_agent :
    String
    → Args
    → ControlPlane
    → (RemoteAgentRecord → Reply ToolResult × ControlPlane)
    → Reply ToolResult × ControlPlane
on_agent user_id args s act = elim (require_agent user_id args s.store) [
  | thrown failure ↦ (thrown failure, s)
  | returned found ↦ act found
]

-- The audit events of one agent, when the arguments name one that is found.
pub audit_agent : String → Args → RemoteStore → Option String
audit_agent user_id args store = elim args.agent_id_or_alias [
  | none ↦ none
  | some value ↦
      if value == "" then none else map_option (λ a. a.id) (resolve_agent user_id value store)
]

-- The tools that are sent to an agent, when its policy has the capability.
unfoldable pub call_agent_tool :
    External
    → RemoteConfig
    → RemotePrincipal
    → RemoteToolName
    → Args
    → String
    → String
    → ℕ
    → ControlPlane
    → RemoteAgentRecord
    → Reply ToolResult × ControlPlane
call_agent_tool ext config principal tool args action_id nonce now s found =
    if not (found.policy.capabilities (tool_capability tool))
    then (
      thrown (failed capability_denied 403),
      audit (some principal.user_id) (some found.id) none "action_denied" warn now s,
    )
    else map_reply awaited (
        dispatch_action ext config principal found tool (tool_capability tool) args action_id nonce
          now s)

-- What is drawn at random for a call: the id of an agent or an action, a token and its id, a nonce.
pub record Draws : Type 0 where
  pub agent_id : String
  pub token : String
  pub token_id : String
  pub action_id : String
  pub nonce : String

unfoldable pub run_tool :
    External
    → RemoteConfig
    → RemotePrincipal
    → RemoteToolName
    → Args
    → Draws
    → ℕ
    → ControlPlane
    → Reply ToolResult × ControlPlane
run_tool ext config principal list_hosts args draws now s =
    (returned (hosts (map host_view (list_agents_of principal.user_id s.store))), s)
run_tool ext config principal list_agents args draws now s =
    (returned (agents (map sanitize_agent (list_agents_of principal.user_id s.store))), s)
run_tool ext config principal create_enrollment_token args draws now s =
    map_reply (λ r. token_created r.0 r.1)
      (create_token ext config principal args draws.agent_id draws.token draws.token_id now s)
run_tool ext config principal get_agent_install_command args draws now s =
    on_agent principal.user_id args s
      (λ found. (returned (install (install_command config found none)), s))
run_tool ext config principal update_agent_policy args draws now s =
    on_agent principal.user_id args s (λ found.
      map_reply (λ a. agent (sanitize_agent a))
        (change_policy ext config principal found args.policy draws.nonce now s))
run_tool ext config principal revoke_agent args draws now s =
    on_agent principal.user_id args s
      (λ found. map_reply (λ a. agent (sanitize_agent a)) (revoke principal found now s))
run_tool ext config principal get_audit_events args draws now s = (
  returned (
      events (
        list_audit principal.user_id (audit_agent principal.user_id args s.store)
          (get_or args.limit 50) s.store)),
  s,
)
run_tool ext config principal tool args draws now s =
    on_agent principal.user_id args s
      (call_agent_tool ext config principal tool args draws.action_id draws.nonce now s)

unfoldable pub call_remote_tool :
    External
    → RemoteConfig
    → RemotePrincipal
    → RemoteToolName
    → Args
    → Draws
    → ℕ
    → ControlPlane
    → Reply ToolResult × ControlPlane
call_remote_tool ext config principal tool args draws now s =
    if not (has_capability principal.capabilities (tool_capability tool))
    then (thrown (failed invalid_scope 403), s)
    else run_tool ext config principal tool args draws now s
