-- ===== src/Remote/ControlPlane/Install.antt =====
-- The install command of src/remote/control-plane.ts and the texts that it is made from.
use Prim.Native.Char.{code as char_code}
use oaslananka_lab_mcp_ssh_t.Remote.AgentPolicy.{
  read_only, full_admin, operations, AgentProfileName,
}
use oaslananka_lab_mcp_ssh_t.Text.{codes, is_space, Text}
use oaslananka_lab_mcp_ssh_t.Remote.ControlPlane.State.{RemoteConfig}
use oaslananka_lab_mcp_ssh_t.Shell.{quoted, joined_by}
use oaslananka_lab_mcp_ssh_t.Remote.Store.Types.{RemoteAgentRecord}
use oaslananka_lab_mcp_ssh_t.Prelude.{
  ℕ, String, Bool, false, not, ◌&&◌, Option, none, some, [], ◌∷◌, ◌++◌, ◌==◌, if◌then◌else◌, get_or,
}

unfoldable pub trim_start_string : String → String
trim_start_string String.[] = String.[]
trim_start_string (String.◌∷◌ c s) =
    let rest = trim_start_string s in if is_space (char_code c) then rest else String.◌∷◌ c s

unfoldable pub trim_end_string : String → String
trim_end_string String.[] = String.[]
trim_end_string (String.◌∷◌ c s) =
    let rest = trim_end_string s in
    if is_space (char_code c) && rest == "" then String.[] else String.◌∷◌ c rest

-- `text.trim()`
unfoldable pub trim_string : String → String
trim_string s = trim_end_string (trim_start_string s)

-- What `create_enrollment_token` grants of the profile that was asked for.
unfoldable pub granted_profile : String → AgentProfileName
granted_profile profile =
    if profile == "operations"
    then operations
    else if profile == "full-admin"
    then full_admin
    else read_only

pub record InstallCommand : Type 0 where
  pub agent_id : String
  pub alias : String
  pub token_recoverable : Bool
  pub npm : Text
  pub run : Text
  pub windows : Text
  pub expires_in_seconds : Option ℕ

-- `quotePosixArg` and `quotePowerShellArg`
pub quote_posix_arg : String → Text
quote_posix_arg value = quoted (codes "'\"'\"'") (codes value)

pub quote_power_shell_arg : String → Text
quote_power_shell_arg value = quoted (codes "''") (codes value)

unfoldable pub enroll_command : (String → Text) → String → String → String → Text
enroll_command quote server token alias = joined_by (codes " ") (
    codes "npx --yes --package mcp-ssh-tool@latest mcp-ssh-agent enroll"
    ∷ (codes "--server " ++ quote server)
    ∷ (codes "--token " ++ quote token)
    ∷ (codes "--alias " ++ quote alias)
    ∷ [])

abbrev pub is_given : Option String → Bool
is_given none = false
is_given (some text) = not (text == "")

unfoldable pub install_command : RemoteConfig → RemoteAgentRecord → Option String → InstallCommand
install_command config agent token =
    let token_argument = get_or token "<create-a-new-enrollment-token>" in
    record {
      agent_id = agent.id;
      alias = agent.alias;
      token_recoverable = is_given token;
      npm = enroll_command quote_posix_arg config.public_base_url token_argument agent.alias;
      run = codes "npx --yes --package mcp-ssh-tool@latest mcp-ssh-agent run";
      windows =
          enroll_command quote_power_shell_arg config.public_base_url token_argument agent.alias;
      expires_in_seconds =
          (if is_given token then some config.enrollment_token_ttl_seconds else none);
    }
