-- ===== src/Policy/Evaluate.antt =====
-- `evaluate`, `assertAllowed` and `explain` of src/policy.ts: each guard of the code is a function
-- that gives its denial, and the first denial decides.
pub mod Prefixes
pub mod Checks
pub mod PathRules
pub mod LocalPaths
pub mod Allowed
mod Tests
use oaslananka_lab_mcp_ssh_t.Prelude.{
  ℕ, String, Bool, true, false, not, ◌&&◌, ◌||◌, Option, none, some, List, [], ◌∷◌, if◌then◌else◌,
  get_or, is_some, any,
}
use oaslananka_lab_mcp_ssh_t.Text.{Text, codes, text_eq}
use oaslananka_lab_mcp_ssh_t.Policy.Paths.{normalize_remote_posix_path, is_path_under}
use oaslananka_lab_mcp_ssh_t.Policy.Ports.{matches_port_policy}
use oaslananka_lab_mcp_ssh_t.Policy.Safety.{check_command_safety}
use oaslananka_lab_mcp_ssh_t.Policy.Engine.{
  PolicyMode, enforce, explain, PolicyConfig, PolicyContext, PolicyDecision, PolicyEngine, Reason,
  host_not_allowed, bind_host_denied, bind_host_outside, remote_host_denied, remote_host_outside,
  port_denied, port_outside, root_login, raw_sudo, command_denied, command_not_allowed,
  unsafe_command, local_nul, local_denied, local_outside, local_no_prefixes, path_nul, path_denied,
  destructive_outside, is_local_transfer, is_tunnel, is_remove, truthy, ◌or_else◌, is_some_list,
  deny_if, paths_of, ports_of,
}

-- The denial of the first item that has one.
pub first_denial {ℓ} : {A : Type ℓ} → (A → Option Reason) → List A → Option Reason
first_denial check [] = none
first_denial check (x ∷ xs) = check x or_else first_denial check xs

-- The check of a value that is there.
abbrev pub when_some {ℓ} : {A : Type ℓ} → Option A → (A → Option Reason) → Option Reason
when_some none check = none
when_some (some a) check = check a

module _ (regex : Text → Text → Bool) where
  pub matches_any : Text → List Text → Bool
  matches_any value = any (λ pattern. regex pattern value)

  pub matches_policy_value : Text → List Text → Bool
  unfolding matches_any
  matches_policy_value value =
      any (λ policy. text_eq policy value || matches_any value (policy ∷ []))

  pub host_check : PolicyConfig → Text → Option Reason
  host_check c host =
      deny_if (is_some_list c.allowed_hosts && not (matches_policy_value host c.allowed_hosts))
        (host_not_allowed host)

  pub bind_host_check : PolicyConfig → Text → Option Reason
  bind_host_check c host =
      deny_if
        (is_some_list c.tunnel_deny_bind_hosts
          && matches_policy_value host c.tunnel_deny_bind_hosts)
        (bind_host_denied host)
      or_else deny_if
          (is_some_list c.tunnel_allow_bind_hosts
            && not (matches_policy_value host c.tunnel_allow_bind_hosts))
          (bind_host_outside host)

  pub remote_host_check : PolicyConfig → Text → Option Reason
  remote_host_check c host =
      deny_if
        (is_some_list c.tunnel_deny_remote_hosts
          && matches_policy_value host c.tunnel_deny_remote_hosts)
        (remote_host_denied host)
      or_else deny_if
          (is_some_list c.tunnel_allow_remote_hosts
            && not (matches_policy_value host c.tunnel_allow_remote_hosts))
          (remote_host_outside host)

pub port_check : PolicyConfig → ℕ → Option Reason
port_check c port =
    deny_if (is_some_list c.tunnel_deny_ports && matches_port_policy port c.tunnel_deny_ports)
      (port_denied port)
    or_else deny_if
        (is_some_list c.tunnel_allow_ports && not (matches_port_policy port c.tunnel_allow_ports))
        (port_outside port)

pub root_check : PolicyConfig → Text → Option Reason
root_check c username =
    deny_if (text_eq username (codes "root") && not c.allow_root_login) root_login

pub sudo_check : PolicyConfig → Bool → Option Reason
sudo_check c raw = deny_if (raw && not c.allow_raw_sudo) raw_sudo

pub command_check :
    (Text → Text → Bool) → (String → Text → Bool) → PolicyConfig → Text → Option Reason
command_check regex safety_test c command =
    let safety = check_command_safety safety_test command in
    deny_if (is_some_list c.command_deny && matches_any regex command c.command_deny) command_denied
    or_else deny_if
        (is_some_list c.command_allow && not (matches_any regex command c.command_allow))
        command_not_allowed
    or_else deny_if (not safety.safe && not c.allow_destructive_commands)
        (unsafe_command safety.warning safety.suggestion safety.risk_level)

abbrev pub under_any : Text → List Text → Bool
under_any path = any (λ prefix. is_path_under path prefix b'/')

pub local_path_check : (Text → Option Text) → PolicyEngine → Text → Option Reason
local_path_check normalize_local e path = elim (normalize_local path) [
  | none ↦ some local_nul
  | some normalized ↦
      deny_if (under_any normalized e.local_path_deny_prefixes) (local_denied path)
      or_else deny_if (not (is_some_list e.local_path_allow_prefixes)) local_no_prefixes
      or_else deny_if (not (under_any normalized e.local_path_allow_prefixes)) (local_outside path)
]

abbrev pub allow_prefixes : PolicyEngine → List Text
allow_prefixes e =
    if is_some_list e.path_allow_prefixes
    then e.path_allow_prefixes
    else e.default_path_allow_prefixes

abbrev pub is_destructive_fs : PolicyContext → Bool
is_destructive_fs ctx = ctx.destructive || is_remove ctx.action

pub remote_path_check : PolicyEngine → PolicyContext → Text → Option Reason
remote_path_check e ctx path = elim (normalize_remote_posix_path path) [
  | none ↦ some path_nul
  | some normalized ↦
      deny_if (under_any normalized e.path_deny_prefixes) (path_denied path)
      or_else deny_if
          (is_destructive_fs ctx
            && not e.config.allow_destructive_fs
            && not (under_any normalized (allow_prefixes e)))
          (destructive_outside path)
]

-- What the observer is told, and whether an error with the reason is thrown.
pub record Verdict : Type 0 where
  pub decision : PolicyDecision
  pub thrown : Bool

abbrev pub is_enforced : PolicyMode → Bool
is_enforced enforce = true
is_enforced explain = false

module _ (regex : Text → Text → Bool) (safety_test : String → Text → Bool)
    (normalize_local : Text → Option Text) (e : PolicyEngine) where
  pub tunnel_check : PolicyContext → Option Reason
  tunnel_check ctx =
      if is_tunnel ctx.action
      then when_some (truthy ctx.local_bind_host) (bind_host_check regex e.config)
        or_else when_some (truthy ctx.remote_host) (remote_host_check regex e.config)
        or_else first_denial (port_check e.config) (ports_of ctx)
      else none

  pub paths_check : PolicyContext → Option Reason
  paths_check ctx =
      if is_local_transfer ctx.action
      then first_denial (local_path_check normalize_local e) (paths_of ctx)
      else first_denial (remote_path_check e ctx) (paths_of ctx)

  pub denial : PolicyContext → Option Reason
  denial ctx =
      when_some (truthy ctx.host) (host_check regex e.config)
      or_else tunnel_check ctx
      or_else when_some ctx.username (root_check e.config)
      or_else sudo_check e.config ctx.raw_sudo
      or_else when_some (truthy ctx.command) (command_check regex safety_test e.config)
      or_else paths_check ctx

  pub evaluate : PolicyContext → PolicyDecision
  evaluate ctx = record {
    allowed = not (is_some (denial ctx));
    mode = get_or ctx.mode e.config.mode;
    action = ctx.action;
    reason = denial ctx;
  }

  pub assert_allowed : PolicyContext → Verdict
  assert_allowed ctx =
      let decision = evaluate ctx in
      record { decision = decision; thrown = not decision.allowed && is_enforced decision.mode }

  -- `explain` of the source
  pub explain_decision : PolicyContext → PolicyDecision
  explain_decision ctx = evaluate (record ctx { mode = some explain })
