-- ===== src/Remote/ControlPlane/Api.antt =====
-- The requests that carry a bearer token, src/remote/control-plane.ts: the authentication, the API
-- of the agents and the MCP endpoint. The check of a token's signature, issuer, audience and times
-- is the work of the package jose and a parameter. Nothing comes between the steps of one request:
-- the code awaits the body of a request after it resolved the agent.
use oaslananka_lab_mcp_ssh_t.Prelude.{
  ℕ, String, Bool, true, false, not, ◌&&◌, ◌||◌, Option, none, some, map_option, List, [], ◌∷◌, map,
  ◌==◌, eqb, if◌then◌else◌, get_or,
}
use oaslananka_lab_mcp_ssh_t.Remote.Store.Types.{
  agent_not_found, warn, unauthorized, AuditEvent, returned, failed, RemoteAgentRecord,
  RemoteToolName, Args, thrown, AgentHostMetadata, Reply, RemotePrincipal,
}
use oaslananka_lab_mcp_ssh_t.Remote.ControlPlane.State.{audit, RemoteConfig, ControlPlane, External}
use oaslananka_lab_mcp_ssh_t.Text.{Text}
use oaslananka_lab_mcp_ssh_t.Remote.ControlPlane.Enroll.{
  handle_agent_enroll, create_token, Enrolled,
}
use oaslananka_lab_mcp_ssh_t.Remote.ControlPlane.Install.{InstallCommand}
use oaslananka_lab_mcp_ssh_t.HostKeys.KnownHosts.{words}
use oaslananka_lab_mcp_ssh_t.Remote.Scopes.{capabilities_from_scopes}
use oaslananka_lab_mcp_ssh_t.Remote.ControlPlane.Tools.{
  resolve_agent, sanitize_agent, map_reply, Draws, AgentView,
}
use oaslananka_lab_mcp_ssh_t.Remote.ControlPlane.Policies.{revoke, change_policy}
use oaslananka_lab_mcp_ssh_t.Remote.Store.Records.{list_audit, list_agents_of}
use Prim.Native.Char.{code as char_code}

-- Of the claims of a verified token, what the code reads.
pub record JwtPayload : Type 0 where
  pub sub : String
  pub jti : String
  pub scope : Option Text
  pub github_id : Option String
  pub github_login : Option String

-- A scope that is not in the table is an error.
unfoldable pub principal_from_payload : JwtPayload → Option RemotePrincipal
principal_from_payload payload =
    let scopes : List Text = elim payload.scope [ none ↦ [] | some text ↦ words text ] in
    map_option
      (λ capabilities. record {
        user_id = payload.sub;
        github_id = get_or payload.github_id "";
        github_login = get_or payload.github_login "";
        scopes = scopes;
        capabilities = capabilities;
        token_id = payload.jti;
      })
      (capabilities_from_scopes scopes)

pub data HttpMethod : Type 0 where
  get_method post_method patch_method options_method other_method : HttpMethod

-- `params.name` of a call: no tool; a property that the table of the tools inherits from
-- `Object.prototype`, such as "constructor", which passes the test `name in TOOL_CAPABILITY_MAP`; or
-- a tool.
pub data NamedTool : Type 0 where
  unknown_name inherited_name : NamedTool
  known_tool : RemoteToolName → NamedTool

-- Of the object of a body, what the handlers read.
pub record HttpBody : Type 0 where
  pub token : Option String
  pub public_key : Option String
  pub body_host : Option AgentHostMetadata
  pub args : Args
  pub rpc_method : Option String
  pub tool : NamedTool

-- The body is what `readJson` returns or throws; the limit is that of the query.
pub record HttpRequest : Type 0 where
  pub method : HttpMethod
  pub pathname : String
  pub authorization : Option String
  pub body : Reply HttpBody
  pub limit : Option ℕ

-- `text.split(separator)`, for a separator of one character.
unfoldable pub split_string : ℕ → String → List String
split_string separator String.[] = String.[] ∷ []
split_string separator (String.◌∷◌ c text) = elim (split_string separator text) [
  | [] ↦ []
  | part ∷ parts ↦
      if eqb (char_code c) separator then String.[] ∷ (part ∷ parts) else String.◌∷◌ c part ∷ parts
]

unfoldable pub bearer_of : List String → Option String
bearer_of (scheme ∷ (token ∷ [])) =
    if not (scheme == "Bearer") || token == "" then none else some token
bearer_of other = none

-- The token of an `Authorization` header.
unfoldable pub extract_bearer_token : Option String → Option String
extract_bearer_token none = none
extract_bearer_token (some authorization) = bearer_of (split_string 32 authorization)

-- The match of `/^\/api\/agents\/([^/]+)(?:\/(policy|revoke))?$/` with a path: its two groups.
unfoldable pub agent_match : List String → Option (String × Option String)
agent_match (root ∷ (api ∷ (agents ∷ (name ∷ [])))) =
    if root == "" && api == "api" && agents == "agents" && not (name == "")
    then some (name, none)
    else none
agent_match (root ∷ (api ∷ (agents ∷ (name ∷ (route ∷ []))))) =
    if root == ""
      && api == "api"
      && agents == "agents"
      && not (name == "")
      && (route == "policy" || route == "revoke")
    then some (name, some route)
    else none
agent_match other = none

pub data ApiResponse : Type 0 where
  enrolled : Enrolled → ApiResponse
  token_made : InstallCommand → String → ApiResponse
  agent_list : List AgentView → ApiResponse
  one_agent : AgentView → ApiResponse
  audit_list : List AuditEvent → ApiResponse
  not_found : ApiResponse

-- A body that cannot be read throws.
abbrev pub with_body :
    {A : Type 0}
    → HttpRequest
    → ControlPlane
    → (HttpBody → Reply A × ControlPlane)
    → Reply A × ControlPlane
with_body request s act = elim request.body [
  | thrown failure ↦ (thrown failure, s)
  | returned body ↦ act body
]

abbrev pub is_get : HttpMethod → Bool
is_get get_method = true
is_get method = false

abbrev pub is_post : HttpMethod → Bool
is_post post_method = true
is_post method = false

module _ (ext : External) (jwt_verify : String → Option JwtPayload) (config : RemoteConfig) where
  unfoldable pub verify_access_token : Option String → ControlPlane → Option RemotePrincipal
  verify_access_token authorization s =
      if not s.has_jwt_key_pair then none else elim (extract_bearer_token authorization) [
        | none ↦ none
        | some token ↦ elim (jwt_verify token) [
          | none ↦ none
          | some payload ↦ principal_from_payload payload
        ]
      ]

  -- A failure is kept in the audit log.
  unfoldable pub authenticate :
      HttpRequest → ℕ → ControlPlane → Reply RemotePrincipal × ControlPlane
  authenticate request now s = elim (verify_access_token request.authorization s) [
    | none ↦ (
      thrown (failed unauthorized 401),
      audit none none none "token_validation_failure" warn now s,
    )
    | some principal ↦ (returned principal, s)
  ]

  -- The routes of one agent.
  unfoldable pub handle_agent_route :
      RemotePrincipal
      → HttpMethod
      → Option String
      → RemoteAgentRecord
      → HttpRequest
      → Draws
      → ℕ
      → ControlPlane
      → Reply ApiResponse × ControlPlane
  handle_agent_route principal get_method none found request draws now s =
      (returned (one_agent (sanitize_agent found)), s)
  handle_agent_route principal patch_method none found request draws now s =
      with_body request s (λ body.
        map_reply (λ a. one_agent (sanitize_agent a))
          (change_policy ext config principal found body.args.policy draws.nonce now s))
  handle_agent_route principal patch_method (some route) found request draws now s =
      if route == "policy"
      then with_body request s (λ body.
        map_reply (λ a. one_agent (sanitize_agent a))
          (change_policy ext config principal found body.args.policy draws.nonce now s))
      else (returned not_found, s)
  handle_agent_route principal post_method (some route) found request draws now s =
      if route == "revoke"
      then map_reply (λ a. one_agent (sanitize_agent a)) (revoke principal found now s)
      else (returned not_found, s)
  handle_agent_route principal method route found request draws now s = (returned not_found, s)

  -- From the authentication on.
  unfoldable pub handle_user_api :
      RemotePrincipal → HttpRequest → Draws → ℕ → ControlPlane → Reply ApiResponse × ControlPlane
  handle_user_api principal request draws now s =
      if request.pathname == "/api/agents/enrollment-tokens" && is_post request.method
      then with_body request s (λ body.
        map_reply (λ r. token_made r.0 r.1)
          (create_token ext config principal body.args draws.agent_id draws.token draws.token_id now
            s))
      else if request.pathname == "/api/agents" && is_get request.method
      then (
        returned (agent_list (map sanitize_agent (list_agents_of principal.user_id s.store))),
        s,
      )
      else elim (agent_match (split_string 47 request.pathname)) [
        | none ↦
            if request.pathname == "/api/audit" && is_get request.method
            then (
              returned (
                  audit_list (list_audit principal.user_id none (get_or request.limit 50) s.store)),
              s,
            )
            else (returned not_found, s)
        | some (name, route) ↦ elim (resolve_agent principal.user_id name s.store) [
          | none ↦ (thrown (failed agent_not_found 404), s)
          | some found ↦ handle_agent_route principal request.method route found request draws now s
        ]
      ]

  unfoldable pub handle_api :
      HttpRequest → Draws → ℕ → ControlPlane → Reply ApiResponse × ControlPlane
  handle_api request draws now s =
      if request.pathname == "/api/agents/enroll" && is_post request.method
      then with_body request s (λ body.
        map_reply enrolled
          (handle_agent_enroll ext body.token body.public_key body.body_host now s))
      else let (reply, t) = authenticate request now s in
        elim reply [
          | thrown failure ↦ (thrown failure, t)
          | returned principal ↦ handle_user_api principal request draws now t
        ]
