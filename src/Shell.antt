-- ===== src/Shell.antt =====
-- The commands that src/shell.ts builds, with their quoting, and the quoting of
-- src/remote/agent-executor.ts.
pub mod Reading
pub mod Script
mod Tests
use oaslananka_lab_mcp_ssh_t.Prelude.{
  ℕ, ◌+◌, ◌/◌, max, Bool, false, ◌&&◌, ◌||◌, Option, none, some, List, [], ◌∷◌, ◌++◌, map, leb, eqb,
  if◌then◌else◌, all,
}
use oaslananka_lab_mcp_ssh_t.Policy.Paths.{unix_separators}
use oaslananka_lab_mcp_ssh_t.HostKeys.{decimal}
use oaslananka_lab_mcp_ssh_t.Policy.Engine.{truthy}
use oaslananka_lab_mcp_ssh_t.Text.{Text, codes}

-- `value.replace(/'/g, by)`
abbrev pub replace_quotes : Text → Text → Text
replace_quotes by [] = []
replace_quotes by (c ∷ s) = (if eqb c b'\'' then by else c ∷ []) ++ replace_quotes by s

abbrev pub quoted : Text → Text → Text
quoted by value = b'\'' ∷ replace_quotes by value ++ (b'\'' ∷ [])

-- `'"'"'` in the place of a quote
pub shell_quote : Text → Text
shell_quote = quoted (codes "'\"'\"'")

power_shell_quote : Text → Text
power_shell_quote = quoted (codes "''")

-- `'\''` in the place of a quote
pub posix_single_quote : Text → Text
posix_single_quote = quoted (codes "'\\''")

is_letter : ℕ → Bool
is_letter c = (leb b'A' c && leb c b'Z') || (leb b'a' c && leb c b'z') || eqb c b'_'

-- `POSIX_ENV_KEY_PATTERN`
is_env_key : Text → Bool
unfolding is_letter
is_env_key [] = false
is_env_key (c ∷ s) = is_letter c && all (λ d. is_letter d || (leb b'0' d && leb d b'9')) s

abbrev pub Env : Type 0
Env = List (Text × Text)

-- Whether `assertValidEnvironment` returns.
pub assert_valid_environment : Env → Bool
unfolding is_env_key
assert_valid_environment = all (λ entry. is_env_key entry.0)

-- `parts.join(separator)`
pub joined_by : Text → List Text → Text
joined_by separator [] = []
joined_by separator (part ∷ []) = part
joined_by separator (part ∷ next ∷ parts) = part ++ separator ++ joined_by separator (next ∷ parts)

export_of : Text × Text → Text
unfolding shell_quote
export_of (key, value) = codes "export " ++ key ++ codes "=" ++ shell_quote value

pub with_env : Env → Text → Text
unfolding joined_by export_of
with_env [] command = command
with_env (entry ∷ env) command =
    joined_by (codes "; ") (map export_of (entry ∷ env)) ++ codes "; " ++ command

pub with_cwd : Option Text → Text → Text
unfolding shell_quote
with_cwd none command = command
with_cwd (some []) command = command
with_cwd (some (c ∷ cwd)) command = codes "cd " ++ shell_quote (c ∷ cwd) ++ codes " && " ++ command

-- `none` is the error for a name of a variable.
pub build_posix_command : Text → Option Text → Env → Text → Option Text
unfolding assert_valid_environment with_cwd with_env shell_quote
build_posix_command command cwd env shell_name =
    if assert_valid_environment env
    then some (shell_name ++ codes " -lc " ++ shell_quote (with_cwd cwd (with_env env command)))
    else none

assignment_of : Text × Text → Text
unfolding power_shell_quote
assignment_of (key, value) = codes "$env:" ++ key ++ codes " = " ++ power_shell_quote value

power_shell_env : Env → Text
unfolding joined_by assignment_of
power_shell_env [] = []
power_shell_env (entry ∷ env) =
    joined_by (codes "; ") (map assignment_of (entry ∷ env)) ++ codes "; "

power_shell_cwd : Option Text → Text
unfolding power_shell_quote
power_shell_cwd none = []
power_shell_cwd (some []) = []
power_shell_cwd (some (c ∷ cwd)) =
    codes "Set-Location -Path " ++ power_shell_quote (c ∷ cwd) ++ codes "; "

pub build_power_shell_command : Text → Option Text → Env → Option Text
unfolding assert_valid_environment power_shell_env power_shell_cwd power_shell_quote
build_power_shell_command command cwd env =
    if assert_valid_environment env
    then some (
        codes "powershell -NoLogo -NoProfile -NonInteractive -ExecutionPolicy Bypass -Command "
        ++ power_shell_quote (power_shell_env env ++ power_shell_cwd cwd ++ command))
    else none

-- What the commands read of the host.
pub record OsInfo : Type 0 where
  pub is_windows : Bool
  pub has_bash : Bool
  pub temp_dir : Option Text

abbrev pub shell_name_of : OsInfo → Text
shell_name_of os_info = if os_info.has_bash then codes "bash" else codes "sh"

pub build_remote_command : Text → OsInfo → Option Text → Env → Option Text
build_remote_command command os_info cwd env =
    if os_info.is_windows
    then build_power_shell_command command cwd env
    else build_posix_command command cwd env (shell_name_of os_info)

-- The seconds of a timeout, rounded up.
pub timeout_seconds : ℕ → ℕ
timeout_seconds timeout_ms = max 1 ((timeout_ms + 999) / 1000)

pub build_remote_command_with_timeout : Text → OsInfo → ℕ → Option Text → Env → Option Text
unfolding timeout_seconds
build_remote_command_with_timeout command os_info timeout_ms cwd env =
    elim (build_remote_command command os_info cwd env) [
      | none ↦ none
      | some remote_command ↦
          if os_info.is_windows
          then some remote_command
          else some (
              codes "if command -v timeout >/dev/null 2>&1; then timeout -k 2s "
              ++ decimal (timeout_seconds timeout_ms)
              ++ codes "s "
              ++ remote_command
              ++ codes "; else "
              ++ remote_command
              ++ codes "; fi")
    ]

-- The script of `buildSudoCommand`, in which `sudo -n` stands before the change of the directory.
pub sudo_script : Text → Option Text → Text
unfolding with_cwd
sudo_script command cwd = codes "sudo -n " ++ with_cwd cwd command

-- `none` is also the error on a Windows host.
pub build_sudo_command : Text → OsInfo → Option Text → Option Text
unfolding sudo_script
build_sudo_command command os_info cwd =
    if os_info.is_windows
    then none
    else build_posix_command (sudo_script command cwd) none [] (shell_name_of os_info)

pub resolve_remote_temp_dir : OsInfo → Text
unfolding unix_separators
resolve_remote_temp_dir os_info = elim (truthy os_info.temp_dir) [
  | some dir ↦ unix_separators (collapse dir)
  | none ↦ if os_info.is_windows then codes "C:/Windows/Temp" else codes "/tmp"
]
  where
    collapse : Text → Text
    collapse [] = []
    collapse (c ∷ []) = c ∷ []
    collapse (c ∷ d ∷ s) =
        let both = collapse s in
        let one = collapse (d ∷ s) in if eqb c b'\\' && eqb d b'\\' then b'/' ∷ both else c ∷ one
