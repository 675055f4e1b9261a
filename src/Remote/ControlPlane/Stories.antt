-- ===== src/Remote/ControlPlane/Stories.antt =====
-- Concrete requests, messages and states of src/remote/control-plane.ts, for its tests.
use oaslananka_lab_mcp_ssh_t.Remote.Store.Types.{
  returned, OAuthClient, revoked, AgentEnrollmentTokenRecord, RemoteAgentRecord,
  ActionResultEnvelope, AgentHostMetadata, Args, RemotePrincipal, UserRow, GitHubUser,
  create_enrollment_token, run_shell,
}
use oaslananka_lab_mcp_ssh_t.Remote.ControlPlane.State.{
  PendingAction, AgentHelloEnvelope, ControlPlane, new_control_plane, RemoteConfig, External,
}
use oaslananka_lab_mcp_ssh_t.Remote.ControlPlane.OAuth.{
  upsert_github_user, wanted_of, handle_authorize, handle_register, AuthorizeQuery,
}
use oaslananka_lab_mcp_ssh_t.Remote.ControlPlane.Token.{TokenForm, handle_token, TokenGrant}
use oaslananka_lab_mcp_ssh_t.Remote.ControlPlane.Token.Exchange.{exchange_form}
use oaslananka_lab_mcp_ssh_t.Remote.ControlPlane.Api.{
  unknown_name, known_tool, post_method, JwtPayload, HttpRequest, patch_method,
}
use oaslananka_lab_mcp_ssh_t.Text.{codes}
use oaslananka_lab_mcp_ssh_t.StringMap.{StringMap}
use oaslananka_lab_mcp_ssh_t.Remote.ControlPlane.Sockets.{handle_agent_hello}
use oaslananka_lab_mcp_ssh_t.Remote.ControlPlane.Actions.{new_entry, handle_action_result}
use oaslananka_lab_mcp_ssh_t.Remote.ControlPlane.Tools.{Draws, call_remote_tool}
use oaslananka_lab_mcp_ssh_t.Remote.ControlPlane.Enroll.{
  pending_agent, Enrolled, handle_agent_enroll,
}
use oaslananka_lab_mcp_ssh_t.Remote.AgentPolicy.{full_admin, create_agent_policy, PolicyPatch}
use oaslananka_lab_mcp_ssh_t.Remote.ControlPlane.Policies.{capped_policy, change_policy, revoke}
use oaslananka_lab_mcp_ssh_t.Remote.Store.Tables.{empty_store}
use oaslananka_lab_mcp_ssh_t.Remote.ControlPlane.Mcp.{handle_mcp}
use oaslananka_lab_mcp_ssh_t.Prelude.{
  ℕ, String, true, false, Option, none, some, [], ◌∷◌, ◌==◌, if◌then◌else◌,
}

abbrev pub ext : External
ext = record {
  sha256_base64_url = λ text. text;
  parse_url = λ url. some ("https:", url);
  is_ed25519_public_key = λ key. key == "key";
  node_verify_hello = λ hello key. key == "key";
  node_verify_result = λ result key. key == "key";
  node_sign_request = λ request. "signed";
  node_sign_policy_update = λ update. "signed";
}

abbrev pub config : RemoteConfig
config = record {
  public_base_url = "https://mcp";
  mcp_resource_url = "https://mcp/mcp";
  github_client_id = none;
  github_client_secret = none;
  allow_all_users = false;
  allowed_github_logins = "ada" ∷ [];
  allowed_github_ids = [];
  access_token_ttl_seconds = 900;
  auth_code_ttl_seconds = 300;
  enrollment_token_ttl_seconds = 600;
  max_action_timeout_seconds = 120;
  max_output_bytes = 200000;
  max_oauth_clients = 100;
}

abbrev pub ada : GitHubUser
ada = record { id = "1"; login = "ada" }

abbrev pub query : AuthorizeQuery
query = record {
  client_id = some "cli";
  redirect_uri = some "https://chat/cb";
  response_type = some "code";
  code_challenge = some "verifier";
  code_challenge_method = some "S256";
  state = some "st";
  resource = none;
  scope = some (codes "hosts:read");
}

-- A client registers, the user logs in, and the code is exchanged.
abbrev pub registered : ControlPlane
registered =
    (handle_register ext config ("https://chat/cb" ∷ []) none "row" "cli" 0 new_control_plane).1

abbrev pub logged_in : ControlPlane
logged_in = (handle_authorize ext config (some ada) query "tx" "secret" "code" 10 registered).1

abbrev pub form : TokenForm
form = exchange_form (wanted_of config query 10) "secret" "verifier"

abbrev pub exchanged : ControlPlane
exchanged = (handle_token ext config form 20 logged_in).1

abbrev pub ada_row : UserRow
ada_row = record {
  id = "github:1";
  github_id = "1";
  github_login = "ada";
  created_at = 10;
  updated_at = 10;
}

abbrev pub grant : TokenGrant
grant = record { user = ada_row; scopes = codes "hosts:read" ∷ []; expires_in = 900 }

-- An agent is created, enrolled and connected; the user runs a command on it, which it answers.
abbrev pub admin : RemotePrincipal
admin = record {
  user_id = "github:1";
  github_id = "1";
  github_login = "ada";
  scopes = [];
  capabilities = codes "agents.admin" ∷ codes "shell.exec" ∷ [];
  token_id = "tok";
}

abbrev pub no_patch : PolicyPatch
no_patch = record {
  profile = none;
  capabilities = λ c. none;
  allow_paths = none;
  deny_paths = none;
  allow_services = none;
  allow_containers = none;
  max_output_bytes = none;
  max_action_timeout_seconds = none;
  version = none;
}

abbrev pub args : Args
args = record {
  alias = some "box";
  requested_profile = some "full-admin";
  agent_id_or_alias = some "box";
  timeout_seconds = some 5;
  limit = none;
  policy = no_patch;
}

abbrev pub draws : Draws
draws = record {
  agent_id = "agt";
  token = "enrol";
  token_id = "enr";
  action_id = "act";
  nonce = "n";
}

abbrev pub host : AgentHostMetadata
host = record { hostname = "h"; os = "linux"; arch = "x64"; platform = "p" }

abbrev pub hello : AgentHelloEnvelope
hello = record {
  agent_id = "agt";
  timestamp = some 2;
  nonce = "hello";
  capabilities = [];
  agent_version = "1";
  host = host;
  signature = "s";
}

abbrev pub result : ActionResultEnvelope
result = record {
  action_id = "act";
  agent_id = "agt";
  nonce = "result";
  is_ok = true;
  exit_code = some 0;
  stdout = none;
  stderr = none;
  started_at = 4;
  finished_at = 4;
  truncated = false;
  error_code = none;
  message = none;
  signature = "s";
}

abbrev pub created : ControlPlane
created =
    (call_remote_tool ext config admin create_enrollment_token args draws 0 new_control_plane).1

abbrev pub enrolled : ControlPlane
enrolled = (handle_agent_enroll ext (some "enrol") (some "key") (some host) 1 created).1

abbrev pub connected : ControlPlane
connected = handle_agent_hello ext 7 hello 2 enrolled

abbrev pub waiting_state : ControlPlane
waiting_state = (call_remote_tool ext config admin run_shell args draws 3 connected).1

abbrev pub answered : ControlPlane
answered = handle_action_result ext 7 result 4 waiting_state

abbrev pub box : RemoteAgentRecord
box = pending_agent "agt" "github:1" "box" (create_agent_policy full_admin) 0

abbrev pub entry : PendingAction
entry = new_entry config admin box run_shell (codes "shell.exec") args "act" 3

abbrev pub box_enrolled : Enrolled
box_enrolled = record { agent_id = "agt"; alias = "box"; policy = create_agent_policy full_admin }

abbrev pub revoked_state : ControlPlane
revoked_state = (revoke admin box 5 connected).1

abbrev pub known_user : ControlPlane
known_user = (upsert_github_user config ada 10 registered).1

abbrev pub nonces : StringMap ℕ
nonces = ("a", 500) ∷ ("b", 900) ∷ []

abbrev pub token_row : String → Option ℕ → AgentEnrollmentTokenRecord
token_row hash used = record {
  id = hash;
  agent_id = "agt";
  user_id = "u";
  token_hash = hash;
  expires_at = 100;
  used_at = used;
  created_at = 0;
}

abbrev pub revoked_box : RemoteAgentRecord
revoked_box = record box { status = revoked; updated_at = 5 }

abbrev pub patched_state : ControlPlane
patched_state = (change_policy ext config admin box no_patch "n" 6 revoked_state).1

abbrev pub patched_box : RemoteAgentRecord
patched_box =
    let policy = capped_policy config no_patch 2 in
    record box { profile = policy.profile; policy = policy; policy_version = 2; updated_at = 6 }

abbrev pub client : OAuthClient
client = record {
  id = "row";
  client_id = "cli";
  client_name = "ChatGPT Connector";
  redirect_uris = "https://chat/cb" ∷ [];
  grant_types = "authorization_code" ∷ [];
  response_types = "code" ∷ [];
  token_endpoint_auth_method = "none";
  created_at = 0;
}

-- A token that may read the hosts and no more, and its request to change the policy of the agent.
abbrev pub viewer_tokens : String → Option JwtPayload
viewer_tokens token =
    if token == "viewer"
    then some (record {
      sub = "github:1";
      jti = "jti";
      scope = some (codes "hosts:read");
      github_id = some "1";
      github_login = some "ada";
    })
    else none

abbrev pub policy_request : HttpRequest
policy_request = record {
  method = patch_method;
  pathname = "/api/agents/box/policy";
  authorization = some "Bearer viewer";
  body = returned (record {
    token = none;
    public_key = none;
    body_host = none;
    args = args;
    rpc_method = none;
    tool = unknown_name;
  });
  limit = none;
}

abbrev pub with_box : ControlPlane
with_box = record new_control_plane { store = record empty_store { agents = box ∷ [] } }

-- A token that may run a shell, and its call of the tool.
abbrev pub shell_tokens : String → Option JwtPayload
shell_tokens token = some (record {
  sub = "github:1";
  jti = "jti";
  scope = some (codes "shell:exec");
  github_id = some "1";
  github_login = some "ada";
})

abbrev pub shell_request : HttpRequest
shell_request = record {
  method = post_method;
  pathname = "/mcp";
  authorization = some "Bearer shell";
  body = returned (record {
    token = none;
    public_key = none;
    body_host = none;
    args = args;
    rpc_method = some "tools/call";
    tool = known_tool run_shell;
  });
  limit = none;
}

abbrev pub called_state : ControlPlane
called_state = (handle_mcp ext shell_tokens config shell_request draws 3 connected).1
