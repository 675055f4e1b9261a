-- ===== src/Remote/ControlPlane/Mcp.antt =====
-- The MCP endpoint, `handleMcp` of src/remote/control-plane.ts, with the list of the tools of
-- src/remote/mcp-tools.ts.
use oaslananka_lab_mcp_ssh_t.Remote.Store.Types.{
  failed, invalid_scope, get_audit_events, revoke_agent, update_agent_policy, run_shell_as_root,
  run_shell, file_write, file_read, docker_restart, docker_logs, docker_ps, restart_service,
  tail_logs, get_system_status, get_agent_install_command, create_enrollment_token, thrown,
  returned, Reply, RemotePrincipal, list_agents, list_hosts, RemoteToolName,
}
use oaslananka_lab_mcp_ssh_t.Text.{Text}
use oaslananka_lab_mcp_ssh_t.Remote.ControlPlane.State.{ControlPlane, RemoteConfig, External}
use oaslananka_lab_mcp_ssh_t.Remote.Scopes.{has_capability}
use oaslananka_lab_mcp_ssh_t.Remote.ControlPlane.Tools.{
  call_remote_tool, map_reply, Draws, tool_capability, ToolResult,
}
use oaslananka_lab_mcp_ssh_t.Remote.ControlPlane.Api.{
  unknown_name, inherited_name, known_tool, HttpMethod, options_method, post_method, with_body,
  authenticate, HttpBody, HttpRequest, JwtPayload,
}
use oaslananka_lab_mcp_ssh_t.Prelude.{
  ℕ, String, Option, List, [], ◌∷◌, ◌==◌, if◌then◌else◌, get_or, keep,
}

abbrev pub remote_tools : List RemoteToolName
remote_tools =
    list_hosts ∷ list_agents ∷ create_enrollment_token ∷ get_agent_install_command
    ∷ get_system_status ∷ tail_logs ∷ restart_service ∷ docker_ps ∷ docker_logs ∷ docker_restart
    ∷ file_read ∷ file_write ∷ run_shell ∷ run_shell_as_root ∷ update_agent_policy ∷ revoke_agent
    ∷ get_audit_events ∷ []

pub data McpResponse : Type 0 where
  no_content : McpResponse
  not_authorized : McpResponse
  initialized : McpResponse
  tool_names : List RemoteToolName → McpResponse
  unknown_tool : McpResponse
  called : ToolResult → McpResponse
  method_not_found : McpResponse

-- `listRemoteToolDescriptors`, without the texts of the descriptors.
unfoldable pub list_remote_tools : List Text → List RemoteToolName
list_remote_tools capabilities =
    keep (λ tool. has_capability capabilities (tool_capability tool)) remote_tools

module _ (ext : External) (jwt_verify : String → Option JwtPayload) (config : RemoteConfig) where
  -- From the body on.
  unfoldable pub handle_rpc :
      RemotePrincipal → HttpBody → Draws → ℕ → ControlPlane → Reply McpResponse × ControlPlane
  handle_rpc principal body draws now s =
      let rpc_method = get_or body.rpc_method "" in
      if rpc_method == "initialize"
      then (returned initialized, s)
      else if rpc_method == "tools/list"
      then (returned (tool_names (list_remote_tools principal.capabilities)), s)
      else if rpc_method == "tools/call"
      then elim body.tool [
        | unknown_name ↦ (returned unknown_tool, s)
        | inherited_name ↦ (thrown (failed invalid_scope 403), s)
        | known_tool tool ↦
            map_reply called (call_remote_tool ext config principal tool body.args draws now s)
      ]
      else (returned method_not_found, s)

  unfoldable pub handle_post :
      HttpRequest → Draws → ℕ → ControlPlane → Reply McpResponse × ControlPlane
  handle_post request draws now s =
      let (reply, t) = authenticate ext jwt_verify config request now s in
      elim reply [
        | thrown failure ↦ (returned not_authorized, t)
        | returned principal ↦ with_body request t (λ body. handle_rpc principal body draws now t)
      ]

  -- The methods of the endpoint.
  unfoldable pub handle_method :
      HttpMethod → HttpRequest → Draws → ℕ → ControlPlane → Reply McpResponse × ControlPlane
  handle_method options_method request draws now s = (returned no_content, s)
  handle_method post_method request draws now s = handle_post request draws now s
  handle_method method request draws now s = (returned not_authorized, s)

  unfoldable pub handle_mcp :
      HttpRequest → Draws → ℕ → ControlPlane → Reply McpResponse × ControlPlane
  handle_mcp request draws now s = handle_method request.method request draws now s
