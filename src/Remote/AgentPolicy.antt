-- ===== src/Remote/AgentPolicy.antt =====
-- The policy of a remote agent, src/remote/policy.ts. A record of flags by capability is a
-- function, in which a flag that is not there reads as false.
pub mod Paths
pub mod Profiles
use oaslananka_lab_mcp_ssh_t.Prelude.{
  ℕ, Bool, false, ◌||◌, Option, List, [], ◌∷◌, ◌++◌, eqb, if◌then◌else◌, get_or, any,
}
use oaslananka_lab_mcp_ssh_t.Text.{Text, codes, text_eq, starts_with}
use oaslananka_lab_mcp_ssh_t.Text.Posix.{posix_normalize}
use oaslananka_lab_mcp_ssh_t.Policy.Paths.{unix_separators}
use oaslananka_lab_mcp_ssh_t.Remote.Scopes.{includes, remote_capabilities}

pub data AgentProfileName : Type 0 where
  read_only operations full_admin custom : AgentProfileName

pub record AgentPolicy : Type 0 where
  pub profile : AgentProfileName
  pub capabilities : Text → Bool
  pub allow_paths : List Text
  pub deny_paths : List Text
  pub allow_services : List Text
  pub allow_containers : List Text
  pub max_output_bytes : ℕ
  pub max_action_timeout_seconds : ℕ
  pub version : ℕ

-- `AgentPolicyPatch`
pub record PolicyPatch : Type 0 where
  pub profile : Option AgentProfileName
  pub capabilities : Text → Option Bool
  pub allow_paths : Option (List Text)
  pub deny_paths : Option (List Text)
  pub allow_services : Option (List Text)
  pub allow_containers : Option (List Text)
  pub max_output_bytes : Option ℕ
  pub max_action_timeout_seconds : Option ℕ
  pub version : Option ℕ

-- The capabilities that a profile sets.
unfoldable pub profile_capabilities : AgentProfileName → List Text
profile_capabilities read_only =
    codes "hosts.read"
    ∷ codes "agents.read"
    ∷ codes "system.read"
    ∷ codes "logs.read"
    ∷ codes "audit.read"
    ∷ []
profile_capabilities operations =
    codes "hosts.read"
    ∷ codes "agents.read"
    ∷ codes "system.read"
    ∷ codes "logs.read"
    ∷ codes "service.manage"
    ∷ codes "docker.manage"
    ∷ codes "files.read"
    ∷ codes "audit.read"
    ∷ []
profile_capabilities full_admin = remote_capabilities
profile_capabilities custom = []

pub profile_targets : AgentProfileName → List Text
profile_targets full_admin = codes "*" ∷ []
profile_targets _ = []

unfoldable pub create_agent_policy : AgentProfileName → AgentPolicy
create_agent_policy profile = record {
  profile = profile;
  capabilities = includes (profile_capabilities profile);
  allow_paths = codes "/tmp" ∷ codes "/var/tmp" ∷ [];
  deny_paths =
      codes "/" ∷ codes "/etc" ∷ codes "/boot" ∷ codes "/dev" ∷ codes "/proc" ∷ codes "/sys" ∷ [];
  allow_services = profile_targets profile;
  allow_containers = profile_targets profile;
  max_output_bytes = 200000;
  max_action_timeout_seconds = 120;
  version = 1;
}

pub merge_custom_policy : PolicyPatch → AgentPolicy
merge_custom_policy policy =
    let base = create_agent_policy (get_or policy.profile custom) in
    record {
      profile = get_or policy.profile custom;
      capabilities = λ c. get_or (policy.capabilities c) (base.capabilities c);
      allow_paths = get_or policy.allow_paths base.allow_paths;
      deny_paths = get_or policy.deny_paths base.deny_paths;
      allow_services = get_or policy.allow_services base.allow_services;
      allow_containers = get_or policy.allow_containers base.allow_containers;
      max_output_bytes = get_or policy.max_output_bytes base.max_output_bytes;
      max_action_timeout_seconds =
          get_or policy.max_action_timeout_seconds base.max_action_timeout_seconds;
      version = get_or policy.version base.version;
    }

-- `normalized.replace(/\/$/u, "")`
pub without_last_slash : Text → Text
without_last_slash [] = []
without_last_slash (c ∷ []) = if eqb c b'/' then [] else c ∷ []
without_last_slash (c ∷ d ∷ s) = c ∷ without_last_slash (d ∷ s)

-- `text || "/"`
pub or_root : Text → Text
or_root [] = codes "/"
or_root (c ∷ s) = c ∷ s

pub normalize_policy_path : Text → Text
normalize_policy_path value = or_root (without_last_slash (posix_normalize (unix_separators value)))

-- The test of one prefix, which both loops of the source make.
pub matches_prefix : Text → Text → Bool
matches_prefix normalized prefix =
    if text_eq prefix (codes "/")
    then text_eq normalized (codes "/")
    else text_eq normalized prefix || starts_with (prefix ++ codes "/") normalized

pub is_path_allowed : AgentPolicy → Text → Bool
is_path_allowed policy file_path =
    let normalized = normalize_policy_path file_path in
    let matches =
      λ (raw_prefix : Text). matches_prefix normalized (normalize_policy_path raw_prefix) in
    if any matches policy.deny_paths then false else any matches policy.allow_paths

pub is_service_allowed : AgentPolicy → Text → Bool
is_service_allowed policy service =
    includes policy.allow_services (codes "*") || includes policy.allow_services service

pub is_container_allowed : AgentPolicy → Text → Bool
is_container_allowed policy container =
    includes policy.allow_containers (codes "*") || includes policy.allow_containers container
