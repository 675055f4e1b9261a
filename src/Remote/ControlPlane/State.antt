-- ===== src/Remote/ControlPlane/State.antt =====
-- The state of `RemoteControlPlane`, src/remote/control-plane.ts, with what it does to the sockets,
-- and the code that it calls outside the repository.
use oaslananka_lab_mcp_ssh_t.Remote.Store.Types.{
  Args, RemoteErrorCode, AgentHostMetadata, Reply, RemoteToolName, ActionRecord,
  ActionResultEnvelope, RemoteAgentRecord, Severity,
}
use oaslananka_lab_mcp_ssh_t.Remote.Store.Tables.{RemoteStore, empty_store}
use oaslananka_lab_mcp_ssh_t.Text.{Text}
use oaslananka_lab_mcp_ssh_t.Remote.AgentPolicy.{AgentPolicy}
use oaslananka_lab_mcp_ssh_t.StringMap.{StringMap}
use oaslananka_lab_mcp_ssh_t.Remote.Store.Records.{insert_audit}
use oaslananka_lab_mcp_ssh_t.Remote.ControlPlane.Nonces.{prune_nonce_window}
use oaslananka_lab_mcp_ssh_t.Prelude.{
  ℕ, String, Bool, true, not, Option, List, [], ◌∷◌, ◌==◌, leb, eqb, if◌then◌else◌, length, any,
  keep,
}

-- Of `RemoteConfig`, the settings that the handlers read.
pub record RemoteConfig : Type 0 where
  pub public_base_url : String
  pub mcp_resource_url : String
  pub github_client_id : Option String
  pub github_client_secret : Option String
  pub allow_all_users : Bool
  pub allowed_github_logins : List String
  pub allowed_github_ids : List String
  pub access_token_ttl_seconds : ℕ
  pub auth_code_ttl_seconds : ℕ
  pub enrollment_token_ttl_seconds : ℕ
  pub max_action_timeout_seconds : ℕ
  pub max_output_bytes : ℕ
  pub max_oauth_clients : ℕ

pub record PendingAuthorize : Type 0 where
  pub client_id : String
  pub redirect_uri : String
  pub code_challenge : String
  pub resource : String
  pub scope : Text
  pub state : String
  pub expires_at : ℕ

-- A connection is a number that stands for the socket object.
pub record AgentConnection : Type 0 where
  pub agent : RemoteAgentRecord
  pub connection : ℕ
  pub seen_nonces : StringMap ℕ

-- An action whose promise is not settled, and when its timer fires.
pub record PendingAction : Type 0 where
  pub action : ActionRecord
  pub fires_at : ℕ

-- A timestamp that `Date` cannot read is none.
pub record AgentHelloEnvelope : Type 0 where
  pub agent_id : String
  pub timestamp : Option ℕ
  pub nonce : String
  pub capabilities : List Text
  pub agent_version : String
  pub host : AgentHostMetadata
  pub signature : String

pub record ActionRequestEnvelope : Type 0 where
  pub action_id : String
  pub agent_id : String
  pub user_id : String
  pub tool : RemoteToolName
  pub capability : Text
  pub args : Args
  pub policy_version : ℕ
  pub issued_at : ℕ
  pub deadline : ℕ
  pub nonce : String
  pub signature : String

pub record PolicyUpdateEnvelope : Type 0 where
  pub agent_id : String
  pub policy : AgentPolicy
  pub policy_version : ℕ
  pub issued_at : ℕ
  pub nonce : String
  pub signature : String

-- What is sent on a connection.
pub data Message : Type 0 where
  agent_ready : String → AgentPolicy → Message
  error_message : RemoteErrorCode → Message
  policy_update : PolicyUpdateEnvelope → Message
  action_request : ActionRequestEnvelope → Message

pub record ControlPlane : Type 0 where
  pub store : RemoteStore
  pub authorize_transactions : StringMap PendingAuthorize
  pub agent_connections : StringMap AgentConnection
  pub agent_hello_nonces : StringMap (StringMap ℕ)
  pub pending_actions : StringMap PendingAction
  -- `jwtKeyPair` is loaded
  pub has_jwt_key_pair : Bool
  -- the connections that have told their close handlers, and the handlers with their agents
  pub closed : List ℕ
  pub close_handlers : List (ℕ × RemoteAgentRecord)
  pub messages : List (ℕ × Message)
  -- what `dispatchAction` gave its callers, by the id of the action
  pub replies : List (String × Reply ActionResultEnvelope)

-- The parts of Node that the code calls: SHA-256 in base64url, `new URL` with the protocol and the
-- host name that it finds, the test of a PEM text for an Ed25519 key, and the signatures on an
-- envelope without its signature.
pub record External : Type 0 where
  pub sha256_base64_url : String → String
  pub parse_url : String → Option (String × String)
  pub is_ed25519_public_key : String → Bool
  pub node_verify_hello : AgentHelloEnvelope → String → Bool
  pub node_verify_result : ActionResultEnvelope → String → Bool
  pub node_sign_request : ActionRequestEnvelope → String
  pub node_sign_policy_update : PolicyUpdateEnvelope → String

-- `new RemoteControlPlane()` and `initialize()`, on an empty database
abbrev pub new_control_plane : ControlPlane
new_control_plane = record {
  store = empty_store;
  authorize_transactions = [];
  agent_connections = [];
  agent_hello_nonces = [];
  pending_actions = [];
  has_jwt_key_pair = true;
  closed = [];
  close_handlers = [];
  messages = [];
  replies = [];
}

unfoldable pub audit :
    Option String
    → Option String
    → Option String
    → String
    → Severity
    → ℕ
    → ControlPlane
    → ControlPlane
audit user_id agent_id action_id event_type severity now s = record s {
  store =
      insert_audit
        (record {
          user_id = user_id;
          agent_id = agent_id;
          action_id = action_id;
          event_type = event_type;
          severity = severity;
          created_at = now;
        })
        s.store;
}

unfoldable pub hash_secret : External → String → String
hash_secret ext value = ext.sha256_base64_url value

-- `xs.includes(x)`
abbrev pub has_string : List String → String → Bool
has_string xs x = any (λ y. y == x) xs

abbrev pub has_number : List ℕ → ℕ → Bool
has_number xs x = any (λ y. eqb y x) xs

unfoldable pub drop_transactions : ℕ → StringMap PendingAuthorize → StringMap PendingAuthorize
drop_transactions now transactions = keep (λ e. not (leb e.1.expires_at now)) transactions

unfoldable pub prune_hello_nonces : ℕ → StringMap (StringMap ℕ) → StringMap (StringMap ℕ)
prune_hello_nonces now [] = []
prune_hello_nonces now ((agent_id, nonces) ∷ rest) =
    let pruned = prune_nonce_window nonces now in
    let others = prune_hello_nonces now rest in
    if eqb (length pruned) 0 then others else (agent_id, pruned) ∷ others

unfoldable pub prune_connections : ℕ → StringMap AgentConnection → StringMap AgentConnection
prune_connections now [] = []
prune_connections now ((agent_id, live) ∷ rest) =
    (agent_id, record live { seen_nonces = prune_nonce_window live.seen_nonces now })
    ∷ prune_connections now rest

unfoldable pub cleanup_ephemeral_state : ℕ → ControlPlane → ControlPlane
cleanup_ephemeral_state now s = record s {
  authorize_transactions = drop_transactions now s.authorize_transactions;
  agent_hello_nonces = prune_hello_nonces now s.agent_hello_nonces;
  agent_connections = prune_connections now s.agent_connections;
}
