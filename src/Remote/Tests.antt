-- ===== src/Remote/Tests.antt =====
-- Runs of src/remote, and its theorems at concrete inputs.
use oaslananka_lab_mcp_ssh_t.Prelude.{
  ◌≤◌, ◌<◌, ◌≡◌, refl, ◌↔◌, ◌⊎◌, true, false, none, some, List, [], ◌∷◌, arith, if◌then◌else◌,
  length, AnyOf,
}
use oaslananka_lab_mcp_ssh_t.Text.{Text, codes, text_eq}
use oaslananka_lab_mcp_ssh_t.Remote.Scopes.{
  parse_scopes, capabilities_from_scopes, has_capability, Grants, capabilities_from_scopes-Grants,
}
use oaslananka_lab_mcp_ssh_t.Remote.AgentPolicy.{
  custom, PolicyPatch, AgentPolicy, merge_custom_policy, is_path_allowed,
}
use oaslananka_lab_mcp_ssh_t.Remote.AgentPolicy.Paths.{Names, segments, is_path_allowed-Names}
use oaslananka_lab_mcp_ssh_t.Remote.AgentPolicy.Profiles.{merge_custom_policy-capabilities}
use oaslananka_lab_mcp_ssh_t.Remote.Output.{
  joined, empty_output, append_each, finalize_bounded_output, Buffer,
}
use oaslananka_lab_mcp_ssh_t.Policy.Paths.{unix_separators}
use oaslananka_lab_mcp_ssh_t.Remote.Output.Bounds.{finalize-append_each}

abbrev chunks : List Buffer
chunks = codes "abc" ∷ codes "defg" ∷ []

finalize-append_each_example :
    let r = finalize_bounded_output (append_each empty_output chunks 5) 5 in
    ((length (joined chunks) ≤ 5) × (r.truncated ≡ false) × (r.value ≡ joined chunks))
    ⊎ ((5 < length (joined chunks)) × (r.truncated ≡ true) × (length r.value ≡ 5))
finalize-append_each_example = finalize-append_each 5 chunks (omega arith, (omega arith, tt))

capabilities_from_scopes-Grants_example :
    (capabilities : List Text) × (capabilities_from_scopes
        (parse_scopes (some (codes "logs:read  nothing agents:admin")))
      ≡ some capabilities)
    × ((c : Text)
        → (has_capability capabilities c ≡ true)
          ↔ AnyOf (Grants c) (parse_scopes (some (codes "logs:read  nothing agents:admin"))))
capabilities_from_scopes-Grants_example =
    capabilities_from_scopes-Grants (some (codes "logs:read  nothing agents:admin"))

-- A policy for one directory.
abbrev policy : AgentPolicy
policy = record {
  profile = custom;
  capabilities = λ c. true;
  allow_paths = codes "/srv" ∷ [];
  deny_paths = codes "/" ∷ codes "/srv/keys/" ∷ [];
  allow_services = [];
  allow_containers = [];
  max_output_bytes = 10;
  max_action_timeout_seconds = 1;
  version = 1;
}

is_path_allowed-Names_example : (is_path_allowed policy (codes "/srv/a/../b") ≡ true) ↔ (
    (¬ AnyOf (λ raw. Names (segments (codes "/srv/a/../b")) (segments raw)) policy.deny_paths)
    × AnyOf (λ raw. Names (segments (codes "/srv/a/../b")) (segments raw)) policy.allow_paths)
unfolding unix_separators
is_path_allowed-Names_example =
    is_path_allowed-Names policy (codes "/srv/a/../b") (_, refl) ((_, refl), ((_, refl), tt))
      ((_, refl), tt)

abbrev patch : PolicyPatch
patch = record {
  profile = none;
  capabilities = λ c. if text_eq c (codes "logs.read") then some true else none;
  allow_paths = none;
  deny_paths = none;
  allow_services = none;
  allow_containers = none;
  max_output_bytes = none;
  max_action_timeout_seconds = none;
  version = none;
}

merge_custom_policy-capabilities_example :
    ((merge_custom_policy patch).capabilities (codes "logs.read") ≡ true)
    ↔ (patch.capabilities (codes "logs.read") ≡ some true)
merge_custom_policy-capabilities_example =
    merge_custom_policy-capabilities patch (codes "logs.read") refl
