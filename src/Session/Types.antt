-- ===== src/Session/Types.antt =====
-- The data of src/session.ts and of its types in src/types.ts. The handles of the SSH library are
-- not kept: a session says only whether it has an SFTP client.
use oaslananka_lab_mcp_ssh_t.Prelude.{ℕ, String, Bool, Option, List}
use oaslananka_lab_mcp_ssh_t.StringMap.{StringMap}
use oaslananka_lab_mcp_ssh_t.Text.{Text}
use oaslananka_lab_mcp_ssh_t.Policy.Engine.{PolicyMode}

pub data HostKeyPolicy : Type 0 where
  strict accept_new insecure : HostKeyPolicy

pub data AuthStrategy : Type 0 where
  auto password key agent : AuthStrategy

pub record ConnectionParams : Type 0 where
  pub host : Text
  pub policy_host : Option Text
  pub username : Text
  pub port : Option ℕ
  pub auth : Option AuthStrategy
  pub password : Option Text
  pub private_key : Option Text
  pub private_key_path : Option Text
  pub passphrase : Option Text
  pub ttl_ms : Option ℕ
  pub strict_host_key_checking : Option Bool
  pub host_key_policy : Option HostKeyPolicy
  pub known_hosts_path : Option Text
  pub expected_host_key_sha256 : Option Text
  pub policy_mode : Option PolicyMode

pub record SessionInfo : Type 0 where
  pub session_id : String
  pub host : Text
  pub username : Text
  pub port : ℕ
  pub created_at : ℕ
  pub expires_at : ℕ
  pub last_used : ℕ
  pub policy_mode : PolicyMode
  pub host_key_policy : HostKeyPolicy

pub record SshSession : Type 0 where
  pub info : SessionInfo
  pub connection_params : ConnectionParams
  pub sftp : Bool

pub record SessionResult : Type 0 where
  pub session_id : String
  pub host : Text
  pub username : Text
  pub sftp_available : Bool
  pub expires_in_ms : ℕ
  pub policy_mode : PolicyMode
  pub host_key_policy : HostKeyPolicy
  pub would_connect : Option Bool

-- What the manager reads of the configuration's security section.
pub record Security : Type 0 where
  pub allow_root_login : Bool
  pub host_key_policy : HostKeyPolicy
  pub known_hosts_path : Text

-- `closing` lists the calls of `closeSession` that wait for their listeners.
pub record SessionManager : Type 0 where
  pub sessions : StringMap SshSession
  pub max_sessions : ℕ
  pub default_ttl_ms : ℕ
  pub closing : List String

-- An `openSession` that waits for its connection.
pub record Opening : Type 0 where
  pub session_id : String
  pub now : ℕ
  pub ttl : ℕ
  pub params : ConnectionParams
  pub policy_mode : PolicyMode
  pub host_key_policy : HostKeyPolicy

-- What `openSession` comes to before it awaits anything: an explanation, an error, or a connection.
pub data OpenStart : Type 0 where
  explained : SessionResult → OpenStart
  denied_by_policy root_denied : OpenStart
  connecting : Opening → OpenStart
