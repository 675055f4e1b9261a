-- ===== src/Policy/Evaluate/Tests.antt =====
-- Runs of src/policy.ts and src/safety.ts, and their theorems at concrete inputs.
use oaslananka_lab_mcp_ssh_t.Prelude.{
  ◌≢◌, String, ◌≡◌, refl, ◌↔◌, ◌⊎◌, Bool, true, false, none, some, [], ◌∷◌, AnyOf,
}
use oaslananka_lab_mcp_ssh_t.Text.{Text, codes, text_eq, trim}
use oaslananka_lab_mcp_ssh_t.Policy.Evaluate.{
  first_denial, port_check, sudo_check, root_check, host_check, remote_path_check, paths_check,
  tunnel_check, denial, assert_allowed, evaluate,
}
use oaslananka_lab_mcp_ssh_t.Policy.Engine.{
  destructive_outside, path_denied, create, unique_from, normalize_all, fs_remove, enforce,
  default_allowed_mutation_prefixes, normalize_policy_paths, PolicyEngine, PolicyContext,
  PolicyConfig,
}
use oaslananka_lab_mcp_ssh_t.Policy.Safety.{
  Misses, check_command_safety-FirstMatch, unsafe_result, FirstMatch, DangerousPattern,
  dangerous_patterns, safe_result, check_command_safety,
}
use oaslananka_lab_mcp_ssh_t.Policy.Paths.{normalize_remote_posix_path, is_path_under}
use oaslananka_lab_mcp_ssh_t.Policy.Ports.{matches_port_policy, parse_port_range}
use oaslananka_lab_mcp_ssh_t.Policy.Evaluate.Allowed.{
  assert_allowed_thrown, evaluate_allowed_iff, Permitted,
}
use oaslananka_lab_mcp_ssh_t.Policy.Paths.Under.{is_path_under_iff, IsUnder}
use oaslananka_lab_mcp_ssh_t.Policy.Ports.Ranges.{matches_port_policy_iff, Covers}
use oaslananka_lab_mcp_ssh_t.Text.Posix.{root_path, IsPlain}

-- No prefix for local paths, one denied command, and the ports from 8000 to 8999 for tunnels.
abbrev config : PolicyConfig
config = record {
  mode = enforce;
  allow_root_login = false;
  allow_raw_sudo = false;
  allow_destructive_commands = false;
  allow_destructive_fs = false;
  allowed_hosts = [];
  command_allow = [];
  command_deny = codes "reboot" ∷ [];
  path_allow_prefixes = [];
  path_deny_prefixes = codes "/etc/./shadow" ∷ codes "/etc/shadow/" ∷ [];
  local_path_allow_prefixes = [];
  local_path_deny_prefixes = [];
  tunnel_allow_bind_hosts = [];
  tunnel_deny_bind_hosts = [];
  tunnel_allow_remote_hosts = [];
  tunnel_deny_remote_hosts = [];
  tunnel_allow_ports = codes "8000-8999" ∷ [];
  tunnel_deny_ports = [];
}

abbrev engine : PolicyEngine
engine = record {
  config = config;
  path_allow_prefixes = [];
  path_deny_prefixes = codes "/etc/shadow" ∷ [];
  default_path_allow_prefixes = default_allowed_mutation_prefixes;
  local_path_allow_prefixes = [];
  local_path_deny_prefixes = [];
}

abbrev no_safety : String → Text → Bool
no_safety pattern command = false

abbrev removal : Text → PolicyContext
removal path = record {
  action = fs_remove;
  host = some (codes "h");
  username = some (codes "deploy");
  command = none;
  path = some path;
  secondary_path = none;
  local_bind_host = none;
  local_port = none;
  remote_host = none;
  remote_port = none;
  mode = none;
  raw_sudo = false;
  destructive = true;
}

create_run : create some config ≡ some engine
unfolding create normalize_policy_paths normalize_all unique_from normalize_remote_posix_path
    text_eq
create_run = refl

-- `/home/../etc/shadow` is the denied path, `/homework` is outside `/home`, and `/home/x` is
-- inside.
denied_run :
    (evaluate text_eq no_safety some engine (removal (codes "/home/../etc/shadow"))).reason
    ≡ some (path_denied (codes "/home/../etc/shadow"))
unfolding evaluate denial tunnel_check paths_check remote_path_check host_check root_check
    sudo_check port_check is_path_under first_denial text_eq normalize_remote_posix_path
denied_run = refl

outside_run :
    (evaluate text_eq no_safety some engine (removal (codes "/homework"))).reason
    ≡ some (destructive_outside (codes "/homework"))
unfolding evaluate denial tunnel_check paths_check remote_path_check host_check root_check
    sudo_check port_check is_path_under first_denial text_eq normalize_remote_posix_path
outside_run = refl

inside_run : (evaluate text_eq no_safety some engine (removal (codes "/home/x"))).allowed ≡ true
unfolding evaluate denial tunnel_check paths_check remote_path_check host_check root_check
    sudo_check port_check is_path_under first_denial text_eq normalize_remote_posix_path
inside_run = refl

evaluate_allowed_iff_example :
    ((evaluate text_eq no_safety some engine (removal (codes "/home/x"))).allowed ≡ true)
    ↔ Permitted text_eq no_safety some config (removal (codes "/home/x"))
evaluate_allowed_iff_example =
    evaluate_allowed_iff text_eq no_safety some config engine (removal (codes "/home/x")) create_run

assert_allowed_thrown_example :
    ((assert_allowed text_eq no_safety some engine (removal (codes "/homework"))).thrown ≡ true) ↔ (
      (¬ Permitted text_eq no_safety some config (removal (codes "/homework")))
      × (enforce ≡ enforce))
assert_allowed_thrown_example =
    assert_allowed_thrown text_eq no_safety some config engine (removal (codes "/homework"))
      create_run

home-IsPlain : IsPlain (codes "home")
home-IsPlain = record {
  not_empty = refl;
  not_dot = refl;
  not_dot_dot = refl;
  no_slash = (refl, (refl, (refl, (refl, tt))));
}

x-IsPlain : IsPlain (codes "x")
x-IsPlain = record { not_empty = refl; not_dot = refl; not_dot_dot = refl; no_slash = (refl, tt) }

is_path_under_iff_example :
    (is_path_under (root_path (codes "home" ∷ codes "x" ∷ [])) (root_path (codes "home" ∷ [])) b'/'
      ≡ true)
    ↔ IsUnder (codes "home" ∷ codes "x" ∷ []) (codes "home" ∷ [])
is_path_under_iff_example =
    is_path_under_iff (codes "home" ∷ codes "x" ∷ []) (codes "home" ∷ [])
      (home-IsPlain, (x-IsPlain, tt)) (home-IsPlain, tt)

range_run : parse_port_range (codes " 8000-8999 ") ≡ some (record { start = 8000; end = 8999 })
unfolding parse_port_range
range_run = refl

matches_port_policy_iff_example :
    (matches_port_policy 8080 (codes "22" ∷ codes "8000-8999" ∷ []) ≡ true)
    ↔ AnyOf (Covers 8080) (codes "22" ∷ codes "8000-8999" ∷ [])
matches_port_policy_iff_example = matches_port_policy_iff 8080 (codes "22" ∷ codes "8000-8999" ∷ [])

check_command_safety-FirstMatch_example :
    ((codes "ls" ≡ []) × (check_command_safety no_safety (codes "ls") ≡ safe_result))
    ⊎ ((codes "ls" ≢ [])
        × (((check_command_safety no_safety (codes "ls") ≡ safe_result)
              × Misses no_safety (trim (codes "ls")) dangerous_patterns)
            ⊎ ((found : DangerousPattern) × FirstMatch no_safety
                  (trim (codes "ls"))
                  found
                  dangerous_patterns
                × (check_command_safety no_safety (codes "ls") ≡ unsafe_result found))))
check_command_safety-FirstMatch_example = check_command_safety-FirstMatch no_safety (codes "ls")
