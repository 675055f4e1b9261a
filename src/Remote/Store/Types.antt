-- ===== src/Remote/Store/Types.antt =====
-- The records of src/remote/types.ts that the control plane stores, and the result of a call that
-- may throw.
use oaslananka_lab_mcp_ssh_t.Text.{Text}
use oaslananka_lab_mcp_ssh_t.Remote.AgentPolicy.{AgentPolicy, AgentProfileName, PolicyPatch}
use oaslananka_lab_mcp_ssh_t.Prelude.{ℕ, String, ◌≡◌, refl, ◌⊎◌, inl, inr, Bool, Option, List}

-- `RemoteErrorCode`
pub data RemoteErrorCode : Type 0 where
  unauthorized forbidden invalid_token invalid_scope invalid_client invalid_redirect_uri :
      RemoteErrorCode
  pkce_validation_failed agent_not_found agent_offline agent_revoked agent_timeout : RemoteErrorCode
  policy_denied capability_denied action_expired action_replay_detected : RemoteErrorCode
  signature_invalid command_timeout output_truncated unsupported_platform : RemoteErrorCode
  unsupported_platform_or_privilege internal_error : RemoteErrorCode

-- What a call throws: an error with a code and an HTTP status, or an error of the database or the
-- runtime, which has neither.
pub data Failure : Type 0 where
  failed : RemoteErrorCode → ℕ → Failure
  raised : Failure

pub data Reply {ℓ} (A : Type ℓ) : Type ℓ where
  returned : A → Reply A
  thrown : Failure → Reply A

pub Reply-cases {ℓ} :
    {A : Type ℓ} (r : Reply A) → ((e : Failure) × (r ≡ thrown e)) ⊎ ((a : A) × (r ≡ returned a))
Reply-cases (returned a) = inr (a, refl)
Reply-cases (thrown e) = inl (e, refl)

pub record GitHubUser : Type 0 where
  pub id : String
  pub login : String

pub record UserRow : Type 0 where
  pub id : String
  pub github_id : String
  pub github_login : String
  pub created_at : ℕ
  pub updated_at : ℕ

pub record OAuthClient : Type 0 where
  pub id : String
  pub client_id : String
  pub client_name : String
  pub redirect_uris : List String
  pub grant_types : List String
  pub response_types : List String
  pub token_endpoint_auth_method : String
  pub created_at : ℕ

pub record OAuthAuthorizationCode : Type 0 where
  pub id : String
  pub code_hash : String
  pub client_id : String
  pub user_id : String
  pub redirect_uri : String
  pub code_challenge : String
  pub code_challenge_method : String
  pub resource : String
  pub scope : Text
  pub expires_at : ℕ
  pub used_at : Option ℕ
  pub created_at : ℕ

pub data AgentStatus : Type 0 where
  pending online offline revoked : AgentStatus

pub record AgentHostMetadata : Type 0 where
  pub hostname : String
  pub os : String
  pub arch : String
  pub platform : String

pub record RemoteAgentRecord : Type 0 where
  pub id : String
  pub user_id : String
  pub alias : String
  pub status : AgentStatus
  pub public_key : Option String
  pub profile : AgentProfileName
  pub policy : AgentPolicy
  pub policy_version : ℕ
  pub host_metadata : Option AgentHostMetadata
  pub last_seen_at : Option ℕ
  pub created_at : ℕ
  pub updated_at : ℕ

pub record AgentEnrollmentTokenRecord : Type 0 where
  pub id : String
  pub agent_id : String
  pub user_id : String
  pub token_hash : String
  pub expires_at : ℕ
  pub used_at : Option ℕ
  pub created_at : ℕ

-- `RemoteToolName`
pub data RemoteToolName : Type 0 where
  list_hosts list_agents create_enrollment_token get_agent_install_command : RemoteToolName
  get_system_status tail_logs restart_service docker_ps docker_logs docker_restart : RemoteToolName
  file_read file_write run_shell run_shell_as_root : RemoteToolName
  update_agent_policy revoke_agent get_audit_events : RemoteToolName

-- Of the arguments of a call, the properties that the control plane reads; `none` is a property
-- that is missing or not of the type that the code asks for.
pub record Args : Type 0 where
  pub alias : Option String
  pub requested_profile : Option String
  pub agent_id_or_alias : Option String
  pub timeout_seconds : Option ℕ
  pub limit : Option ℕ
  pub policy : PolicyPatch

-- `waiting` is "pending", which `AgentStatus` names already.
pub data ActionStatus : Type 0 where
  waiting sent completed denied timeout error : ActionStatus

pub record ActionResultEnvelope : Type 0 where
  pub action_id : String
  pub agent_id : String
  pub nonce : String
  pub is_ok : Bool
  pub exit_code : Option ℕ
  pub stdout : Option String
  pub stderr : Option String
  pub started_at : ℕ
  pub finished_at : ℕ
  pub truncated : Bool
  pub error_code : Option RemoteErrorCode
  pub message : Option String
  pub signature : String

pub record ActionRecord : Type 0 where
  pub id : String
  pub user_id : String
  pub agent_id : String
  pub tool : RemoteToolName
  pub capability : Text
  pub args : Args
  pub status : ActionStatus
  pub issued_at : ℕ
  pub deadline : ℕ
  pub completed_at : Option ℕ
  pub result : Option ActionResultEnvelope
  pub error_code : Option RemoteErrorCode

-- `severe` is "error", which `ActionStatus` names already.
pub data Severity : Type 0 where
  info warn severe : Severity

-- Without the random id of the event and its object of metadata.
pub record AuditEvent : Type 0 where
  pub user_id : Option String
  pub agent_id : Option String
  pub action_id : Option String
  pub event_type : String
  pub severity : Severity
  pub created_at : ℕ

-- `RemotePrincipal`
pub record RemotePrincipal : Type 0 where
  pub user_id : String
  pub github_id : String
  pub github_login : String
  pub scopes : List Text
  pub capabilities : List Text
  pub token_id : String
