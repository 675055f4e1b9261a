-- ===== src/Policy/Safety.antt =====
-- src/safety.ts. `RegExp.prototype.test` with the flag `i` is a parameter of the checks, a function
-- of the pattern's source and the command. The logger's line is left out.
use oaslananka_lab_mcp_ssh_t.Prelude.{
  ◌≢◌, ◌++◌, ap, String, ◌≡◌, refl, ◌⊎◌, inl, inr, Bool, true, false, Option, none, some, List, [],
  ◌∷◌, if◌then◌else◌, Bool-cases, All,
}
use oaslananka_lab_mcp_ssh_t.Text.{Text, trim}

pub data RiskLevel : Type 0 where
  low medium high critical : RiskLevel

pub record DangerousPattern : Type 0 where
  pub pattern : String
  pub risk_level : RiskLevel
  pub warning : String
  pub suggestion : Option String

pub record SafetyCheckResult : Type 0 where
  pub safe : Bool
  pub warning : Option String
  pub risk_level : Option RiskLevel
  pub suggestion : Option String

abbrev pub dangerous_patterns : List DangerousPattern
dangerous_patterns =
    record {
      pattern = "rm\\s+(-rf?|--recursive)\\s+\\/\\s*$";
      risk_level = critical;
      warning = "This command will delete the entire root filesystem!";
      suggestion = some "Double-check the path before executing";
    }
    ∷ record {
      pattern = "rm\\s+(-rf?|--recursive)\\s+\\/\\*\\s*$";
      risk_level = critical;
      warning = "This command will delete all files in the root directory!";
      suggestion = some "Double-check the path before executing";
    }
    ∷ record {
      pattern = "mkfs\\.";
      risk_level = critical;
      warning = "This command will format a filesystem, causing data loss!";
      suggestion = some "Verify the target device carefully";
    }
    ∷ record {
      pattern = "dd\\s+.*of=\\/dev\\/(sd|hd|nvme|vd)";
      risk_level = critical;
      warning = "This command writes directly to a disk device!";
      suggestion = some "Verify input and output devices before executing";
    }
    ∷ record {
      pattern = "chmod\\s+(-R\\s+)?777\\s+\\/";
      risk_level = high;
      warning = "Setting 777 permissions on root is a security risk!";
      suggestion = some "Use more restrictive permissions";
    }
    ∷ record {
      pattern = "chown\\s+-R\\s+.*\\s+\\/\\s*$";
      risk_level = high;
      warning = "Changing ownership of root directory recursively!";
      suggestion = some "Verify the target path";
    }
    ∷ record {
      pattern = ":\\(\\)\\{\\s*:\\|:&\\s*\\};\\s*:";
      risk_level = critical;
      warning = "Fork bomb detected! This will crash the system!";
      suggestion = some "Do not execute this command";
    }
    ∷ record {
      pattern = ">\\s*\\/dev\\/sd[a-z]$";
      risk_level = critical;
      warning = "Writing directly to disk device!";
      suggestion = some "Verify the target device";
    }
    ∷ record {
      pattern = "shutdown|reboot|init\\s+[0-6]|poweroff";
      risk_level = medium;
      warning = "This command will shutdown or reboot the system";
      suggestion = some "Ensure you have physical or out-of-band access";
    }
    ∷ record {
      pattern = "systemctl\\s+(stop|disable)\\s+(sshd|ssh|networking|network)";
      risk_level = high;
      warning = "Stopping this service may disconnect your SSH session!";
      suggestion = some "Have alternative access method ready";
    }
    ∷ record {
      pattern = "iptables\\s+-F";
      risk_level = medium;
      warning = "Flushing firewall rules may expose the system";
      suggestion = some "Have a backup of current rules";
    }
    ∷ record {
      pattern = "ufw\\s+disable";
      risk_level = medium;
      warning = "Disabling firewall will expose all ports";
      suggestion = some "Consider using specific allow rules instead";
    }
    ∷ record {
      pattern = "rm\\s+(-rf?|--recursive)\\s+\\.\\s*$";
      risk_level = low;
      warning = "This will delete the current directory recursively";
      suggestion = some "Verify you are in the correct directory";
    }
    ∷ record {
      pattern = ">\\s*\\/etc\\/(passwd|shadow|sudoers)";
      risk_level = high;
      warning = "Overwriting critical system file!";
      suggestion = some "Use proper editing tools like visudo";
    }
    ∷ record {
      pattern = "curl\\s+.*\\|\\s*(sudo\\s+)?(bash|sh)";
      risk_level = medium;
      warning = "Piping remote script directly to shell";
      suggestion = some "Review the script before executing";
    }
    ∷ record {
      pattern = "wget\\s+.*\\|\\s*(sudo\\s+)?(bash|sh)";
      risk_level = medium;
      warning = "Piping remote script directly to shell";
      suggestion = some "Review the script before executing";
    }
    ∷ []

abbrev pub safe_result : SafetyCheckResult
safe_result = record { safe = true; warning = none; risk_level = none; suggestion = none }

abbrev pub unsafe_result : DangerousPattern → SafetyCheckResult
unsafe_result p = record {
  safe = false;
  warning = some p.warning;
  risk_level = some p.risk_level;
  suggestion = p.suggestion;
}

module _ (test : String → Text → Bool) where
  -- the loop over the patterns
  pub first_match : Text → List DangerousPattern → SafetyCheckResult
  first_match command [] = safe_result
  first_match command (p ∷ ps) =
      if test p.pattern command then unsafe_result p else first_match command ps

  pub check_command_safety : Text → SafetyCheckResult
  unfolding first_match
  check_command_safety [] = safe_result
  check_command_safety (c ∷ command) = first_match (trim (c ∷ command)) dangerous_patterns

  -- No pattern of the list matches the command.
  abbrev pub Misses : Text → List DangerousPattern → Type 0
  Misses command = All (λ p. test p.pattern command ≡ false)

  -- The list has the pattern at a place, the command matches it, and matches no pattern above it.
  abbrev pub FirstMatch : Text → DangerousPattern → List DangerousPattern → Type 0
  FirstMatch command found ps =
      (above : List DangerousPattern) × (below : List DangerousPattern) × (ps
        ≡ above ++ (found ∷ below))
      × Misses command above
      × (test found.pattern command ≡ true)

  first_match_sound :
      (command : Text) (ps : List DangerousPattern)
      → ((first_match command ps ≡ safe_result) × Misses command ps)
        ⊎ ((found : DangerousPattern) × FirstMatch command found ps
            × (first_match command ps ≡ unsafe_result found))
  unfolding first_match
  first_match_sound command [] = inl (refl, tt)
  first_match_sound command (p ∷ ps) = elim (Bool-cases (test p.pattern command)) [
    | inl hit ↦ inr (p, ([], ps, refl, tt, hit), rw hit refl)
    | inr miss ↦ elim (first_match_sound command ps) [
      | inl (e, none_of) ↦ inl (rw miss e, (miss, none_of))
      | inr (found, (above, below, split, missed, hit), e) ↦
          inr
            (found, (p ∷ above, below, ap (λ rest. p ∷ rest) split, (miss, missed), hit), rw miss e)
    ]
  ]

-- An empty command is called safe. Another is called safe when its trimmed text matches no pattern
-- of the table, and otherwise gets the warning, the risk and the suggestion of a pattern that it
-- matches while it matches none of those above it.
pub check_command_safety-FirstMatch :
    (test : String → Text → Bool) (command : Text)
    → ((command ≡ []) × (check_command_safety test command ≡ safe_result))
      ⊎ ((command ≢ [])
          × (((check_command_safety test command ≡ safe_result)
                × Misses test (trim command) dangerous_patterns)
              ⊎ ((found : DangerousPattern) × FirstMatch test
                    (trim command)
                    found
                    dangerous_patterns
                  × (check_command_safety test command ≡ unsafe_result found))))
unfolding check_command_safety
check_command_safety-FirstMatch test [] = inl (refl, refl)
check_command_safety-FirstMatch test (c ∷ command) =
    inr ((λ e. cc), first_match_sound test (trim (c ∷ command)) dangerous_patterns)
