-- ===== src/Remote/ControlPlane/Steps.antt =====
-- What can happen to the control plane of src/remote/control-plane.ts: a step for each request of
-- the OAuth flow, of an agent's enrolment and of a tool or the API with a valid token, each message,
-- timer and socket, at any time and with any arguments. The shutdown and the audit event of a
-- failed authentication are not among them. An agent that a request resolved
-- before it was read to its end is any record.
use oaslananka_lab_mcp_ssh_t.Remote.ControlPlane.State.{
  cleanup_ephemeral_state, AgentHelloEnvelope, PendingAuthorize, ControlPlane, RemoteConfig,
  External,
}
use oaslananka_lab_mcp_ssh_t.Remote.ControlPlane.OAuth.{
  callback_finish, callback_begin, handle_authorize, AuthorizeQuery, handle_register,
}
use oaslananka_lab_mcp_ssh_t.Remote.Store.Types.{
  RemoteAgentRecord, Args, RemoteToolName, RemotePrincipal, ActionResultEnvelope, AgentHostMetadata,
  Reply, GitHubUser,
}
use oaslananka_lab_mcp_ssh_t.Remote.ControlPlane.Token.{handle_token, TokenForm}
use oaslananka_lab_mcp_ssh_t.Remote.ControlPlane.Enroll.{handle_agent_enroll}
use oaslananka_lab_mcp_ssh_t.Remote.ControlPlane.Sockets.{close_connection, handle_agent_hello}
use oaslananka_lab_mcp_ssh_t.Remote.ControlPlane.Actions.{on_action_timeout, handle_action_result}
use oaslananka_lab_mcp_ssh_t.Remote.ControlPlane.Tools.{call_remote_tool, Draws}
use oaslananka_lab_mcp_ssh_t.Remote.AgentPolicy.{PolicyPatch}
use oaslananka_lab_mcp_ssh_t.Remote.ControlPlane.Policies.{revoke, change_policy}
use oaslananka_lab_mcp_ssh_t.Prelude.{ℕ, String, Option, List}

module _ (ext : External) (config : RemoteConfig) where
  pub data Step (s : ControlPlane) : ControlPlane → Type 0 where
    registers :
        (uris : List String) (name : Option String) (row_id client_id : String) (now : ℕ)
        → Step s (handle_register ext config uris name row_id client_id now s).1
    authorizes :
        (user : Option GitHubUser) (query : AuthorizeQuery) (transaction_id code row_id : String)
        (now : ℕ)
        → Step s (handle_authorize ext config user query transaction_id code row_id now s).1
    comes_back : (code state : String) (now : ℕ) → Step s (callback_begin code state now s).1
    logs_in :
        (wanted : PendingAuthorize) (user : Reply GitHubUser) (code row_id : String) (now : ℕ)
        → Step s (callback_finish ext config wanted user code row_id now s).1
    exchanges : (form : TokenForm) (now : ℕ) → Step s (handle_token ext config form now s).1
    enrolls :
        (token public_key : Option String) (host : Option AgentHostMetadata) (now : ℕ)
        → Step s (handle_agent_enroll ext token public_key host now s).1
    greets :
        (connection : ℕ) (hello : AgentHelloEnvelope) (now : ℕ)
        → Step s (handle_agent_hello ext connection hello now s)
    answers :
        (connection : ℕ) (result : ActionResultEnvelope) (now : ℕ)
        → Step s (handle_action_result ext connection result now s)
    hangs_up : (connection now : ℕ) → Step s (close_connection connection now s)
    calls :
        (principal : RemotePrincipal) (tool : RemoteToolName) (args : Args) (draws : Draws)
        (now : ℕ)
        → Step s (call_remote_tool ext config principal tool args draws now s).1
    patches :
        (principal : RemotePrincipal) (agent : RemoteAgentRecord) (patch : PolicyPatch)
        (nonce : String) (now : ℕ)
        → Step s (change_policy ext config principal agent patch nonce now s).1
    revokes :
        (principal : RemotePrincipal) (agent : RemoteAgentRecord) (now : ℕ)
        → Step s (revoke principal agent now s).1
    times_out : (action_id : String) (now : ℕ) → Step s (on_action_timeout action_id now s)
    cleans : (now : ℕ) → Step s (cleanup_ephemeral_state now s)

  pub data Steps (s : ControlPlane) : ControlPlane → Type 0 where
    done : Steps s s
    next : {t u : ControlPlane} → Steps s t → Step t u → Steps s u
