-- ===== src/Shell/Tests.antt =====
-- Runs of src/shell.ts, and its theorems at concrete inputs.
use oaslananka_lab_mcp_ssh_t.Prelude.{◌≡◌, refl, ◌⊎◌, true, false, none, some, [], ◌∷◌}
use oaslananka_lab_mcp_ssh_t.Text.{Text, codes}
use oaslananka_lab_mcp_ssh_t.Shell.{
  Env, shell_quote, posix_single_quote, build_posix_command, assert_valid_environment, with_env,
  OsInfo,
}
use oaslananka_lab_mcp_ssh_t.Shell.Script.{build_posix_command-RunsScript, RunsIn, Exports, Named}
use oaslananka_lab_mcp_ssh_t.Shell.Reading.{read_word, outside, RunsScript, read-shell_quote}

quote_run : shell_quote (codes "it's") ≡ codes "'it'\"'\"'s'"
unfolding shell_quote
quote_run = refl

env_run : with_env ((codes "A", codes "1") ∷ []) (codes "ls") ≡ codes "export A='1'; ls"
unfolding with_env
env_run = refl

key_run : assert_valid_environment ((codes "A;rm", codes "1") ∷ []) ≡ false
unfolding assert_valid_environment
key_run = refl

read-shell_quote_example :
    (read_word outside (shell_quote (codes "it's $x")) ≡ some (codes "it's $x"))
    × (read_word outside (posix_single_quote (codes "it's $x")) ≡ some (codes "it's $x"))
read-shell_quote_example = read-shell_quote (codes "it's $x")

abbrev one_variable : Env
one_variable = (codes "A", codes "1") ∷ []

build_posix_command-RunsScript_example :
    ((¬ Named one_variable)
      × (build_posix_command (codes "ls") (some (codes "/x")) one_variable (codes "sh") ≡ none))
    ⊎ (Named one_variable
        × ((script : Text) × (whole : Text) × Exports (codes "ls") one_variable script
            × RunsIn (some (codes "/x")) script whole
            × RunsScript
                (codes "sh")
                whole
                (build_posix_command (codes "ls") (some (codes "/x")) one_variable (codes "sh"))))
build_posix_command-RunsScript_example =
    build_posix_command-RunsScript (codes "ls") (some (codes "/x")) one_variable (codes "sh")

abbrev linux : OsInfo
linux = record { is_windows = false; has_bash = true; temp_dir = none }
