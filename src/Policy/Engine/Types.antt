-- ===== src/Policy/Engine/Types.antt =====
-- The data of src/policy.ts.
use oaslananka_lab_mcp_ssh_t.Prelude.{ℕ, String, Bool, true, false, Option, List}
use oaslananka_lab_mcp_ssh_t.Text.{Text}
use oaslananka_lab_mcp_ssh_t.Policy.Safety.{RiskLevel}

pub data PolicyMode : Type 0 where
  enforce explain : PolicyMode

pub data PolicyAction : Type 0 where
  ssh_open proc_exec proc_sudo fs_read fs_stat fs_list fs_write fs_remove fs_mkdir fs_rename :
      PolicyAction
  ensure_package ensure_service ensure_lines patch_apply transfer_upload transfer_download :
      PolicyAction
  transfer_local_read transfer_local_write transfer_local_create transfer_local_overwrite :
      PolicyAction
  tunnel_local tunnel_remote : PolicyAction

pub record PolicyConfig : Type 0 where
  pub mode : PolicyMode
  pub allow_root_login : Bool
  pub allow_raw_sudo : Bool
  pub allow_destructive_commands : Bool
  pub allow_destructive_fs : Bool
  pub allowed_hosts : List Text
  pub command_allow : List Text
  pub command_deny : List Text
  pub path_allow_prefixes : List Text
  pub path_deny_prefixes : List Text
  pub local_path_allow_prefixes : List Text
  pub local_path_deny_prefixes : List Text
  pub tunnel_allow_bind_hosts : List Text
  pub tunnel_deny_bind_hosts : List Text
  pub tunnel_allow_remote_hosts : List Text
  pub tunnel_deny_remote_hosts : List Text
  pub tunnel_allow_ports : List Text
  pub tunnel_deny_ports : List Text

-- An optional flag that is missing reads as false.
pub record PolicyContext : Type 0 where
  pub action : PolicyAction
  pub host : Option Text
  pub username : Option Text
  pub command : Option Text
  pub path : Option Text
  pub secondary_path : Option Text
  pub local_bind_host : Option Text
  pub local_port : Option ℕ
  pub remote_host : Option Text
  pub remote_port : Option ℕ
  pub mode : Option PolicyMode
  pub raw_sudo : Bool
  pub destructive : Bool

-- One constructor for each `denied({ … })`, with what its text quotes.
pub data Reason : Type 0 where
  host_not_allowed bind_host_denied bind_host_outside remote_host_denied remote_host_outside :
      Text → Reason
  port_denied port_outside : ℕ → Reason
  root_login raw_sudo command_denied command_not_allowed : Reason
  unsafe_command : Option String → Option String → Option RiskLevel → Reason
  local_nul : Reason
  local_denied local_outside : Text → Reason
  local_no_prefixes : Reason
  path_nul : Reason
  path_denied destructive_outside : Text → Reason

pub record PolicyDecision : Type 0 where
  pub allowed : Bool
  pub mode : PolicyMode
  pub action : PolicyAction
  pub reason : Option Reason

-- The configuration with its prefixes normalised.
pub record PolicyEngine : Type 0 where
  pub config : PolicyConfig
  pub path_allow_prefixes : List Text
  pub path_deny_prefixes : List Text
  pub default_path_allow_prefixes : List Text
  pub local_path_allow_prefixes : List Text
  pub local_path_deny_prefixes : List Text

-- `LOCAL_TRANSFER_ACTIONS`
abbrev pub is_local_transfer : PolicyAction → Bool
is_local_transfer transfer_local_read = true
is_local_transfer transfer_local_write = true
is_local_transfer transfer_local_create = true
is_local_transfer transfer_local_overwrite = true
is_local_transfer _ = false

abbrev pub is_tunnel : PolicyAction → Bool
is_tunnel tunnel_local = true
is_tunnel tunnel_remote = true
is_tunnel _ = false

abbrev pub is_remove : PolicyAction → Bool
is_remove fs_remove = true
is_remove _ = false
