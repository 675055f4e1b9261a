-- ===== src/Shell/Script.antt =====
-- The script that the POSIX commands of src/shell.ts run: its directory, its variables and its
-- command.
use oaslananka_lab_mcp_ssh_t.Shell.{
  export_of, shell_quote, is_letter, is_env_key, joined_by, assert_valid_environment, with_env, Env,
  build_posix_command, with_cwd,
}
use oaslananka_lab_mcp_ssh_t.Text.{codes, Text}
use oaslananka_lab_mcp_ssh_t.Shell.Reading.{
  posix-RunsScript, read-shell_quote, outside, read_word, RunsScript,
}
use oaslananka_lab_mcp_ssh_t.Policy.Engine.{truthy}
use oaslananka_lab_mcp_ssh_t.Prelude.{
  ℕ, ◌≤◌, ◌≡◌, refl, ◌↔◌, ◌⊎◌, inl, inr, Bool, true, ◌&&◌, ◌||◌, Option, none, some, List, [], ◌∷◌,
  ◌++◌, append_assoc, arith, leb, Bool-cases, all, All,
}

-- A capital or small letter, or the underscore.
abbrev StartsName : ℕ → Type 0
StartsName c = ((b'A' ≤ c) × (c ≤ b'Z')) ⊎ (((b'a' ≤ c) × (c ≤ b'z')) ⊎ (c ≡ b'_'))

abbrev InName : ℕ → Type 0
InName c = StartsName c ⊎ ((b'0' ≤ c) × (c ≤ b'9'))

-- An identifier of the shell.
abbrev IsIdentifier : Text → Type 0
IsIdentifier [] = ⊥
IsIdentifier (c ∷ name) = StartsName c × All InName name

is_letter-StartsName : (c : ℕ) → (is_letter c ≡ true) ↔ StartsName c
unfolding is_letter
is_letter-StartsName c = (λ h. ground arith, λ p. ground arith)

all-All :
    {A : Type 0} (p : A → Bool) {P : A → Type 0} (xs : List A)
    → ((a : A) → (p a ≡ true) ↔ P a)
    → (all p xs ≡ true) ↔ All P xs
all-All p [] i = (λ h. tt, λ h. refl)
all-All p (x ∷ xs) i =
    let rest = all-All p xs i in
    elim (Bool-cases (p x)) [
      | inl holds ↦ rw holds (λ h. ((i x).0 holds, rest.0 h), λ q. rest.1 q.1)
      | inr fails ↦ rw fails (λ h. cc, λ q. cc (fails, (i x).1 q.0))
    ]

is_env_key-IsIdentifier : (name : Text) → (is_env_key name ≡ true) ↔ IsIdentifier name
unfolding is_env_key
is_env_key-IsIdentifier [] = (λ h. cc, λ p. absurd p)
is_env_key-IsIdentifier (c ∷ name) =
    let first_iff = is_letter-StartsName c in
    let rest_iff =
      all-All (λ d. is_letter d || (leb b'0' d && leb d b'9')) {P = InName} name
        (λ d.
          let letter = is_letter-StartsName d in
          elim (Bool-cases (is_letter d)) [
            | inl yes_letter ↦ rw yes_letter (λ h. inl (letter.0 yes_letter), λ p. refl)
            | inr no_letter ↦ rw no_letter (
              λ h. inr (ground (arith, h), ground (arith, h)),
              λ p. elim p [
                | inl q ↦ absurd (let r = letter.1 q in cc)
                | inr q ↦ ground (arith, q.0, q.1)
              ],
            )
          ]) in
    elim (Bool-cases (is_letter c)) [
      | inl starts ↦ rw starts (λ h. (first_iff.0 starts, rest_iff.0 h), λ p. rest_iff.1 p.1)
      | inr other ↦ rw other (λ h. cc, λ p. cc (other, first_iff.1 p.0))
    ]

-- Every variable has an identifier for its name.
abbrev pub Named : Env → Type 0
Named = All (λ entry. IsIdentifier entry.0)

-- The script exports each variable, with a word that the shell reads as its value, and then runs
-- the command.
abbrev pub Exports : Text → Env → Text → Type 0
Exports command [] script = script ≡ command
Exports command ((key, value) ∷ env) script =
    (word : Text) × (rest : Text) × (read_word outside word ≡ some value)
    × (script ≡ codes "export " ++ key ++ codes "=" ++ word ++ codes "; " ++ rest)
    × Exports command env rest

-- The script runs in the directory, a word that the shell reads as the one that is given, if one
-- is.
abbrev pub RunsIn : Option Text → Text → Text → Type 0
RunsIn cwd script whole =
    ((truthy cwd ≡ none) × (whole ≡ script))
    ⊎ ((dir : Text) × (word : Text) × (truthy cwd ≡ some dir)
        × (read_word outside word ≡ some dir)
        × (whole ≡ codes "cd " ++ word ++ codes " && " ++ script))

with_env-cons :
    (key value : Text) (env : Env) (command : Text)
    → with_env ((key, value) ∷ env) command
      ≡ codes "export "
        ++ key
        ++ codes "="
        ++ shell_quote value
        ++ codes "; "
        ++ with_env env command
unfolding with_env joined_by export_of shell_quote
with_env-cons key value [] command = simp (append_assoc)
with_env-cons key value (entry ∷ env) command = simp (append_assoc)

with_env-Exports : (env : Env) (command : Text) → Exports command env (with_env env command)
unfolding with_env
with_env-Exports [] command = refl
with_env-Exports ((key, value) ∷ env) command = (
  shell_quote value,
  with_env env command,
  (read-shell_quote value).0,
  with_env-cons key value env command,
  with_env-Exports env command,
)

with_cwd-RunsIn : (cwd : Option Text) (script : Text) → RunsIn cwd script (with_cwd cwd script)
unfolding with_cwd
with_cwd-RunsIn none script = inl (refl, refl)
with_cwd-RunsIn (some []) script = inl (refl, refl)
with_cwd-RunsIn (some (c ∷ dir)) script =
    inr (c ∷ dir, shell_quote (c ∷ dir), refl, (read-shell_quote (c ∷ dir)).0, refl)

assert_valid_environment-Named : (env : Env) → (assert_valid_environment env ≡ true) ↔ Named env
unfolding assert_valid_environment
assert_valid_environment-Named env =
    all-All (λ entry. is_env_key entry.0) {P = λ entry. IsIdentifier entry.0} env
      (λ entry. is_env_key-IsIdentifier entry.0)

-- A POSIX command is an error when the name of some variable is not an identifier: a letter or an
-- underscore, and then letters, digits and underscores. Otherwise the shell that is named gets one
-- word that it reads as a script, which changes to the directory, if one is given, exports each
-- variable in its order with a word that the shell reads as its value, and runs the command.
pub build_posix_command-RunsScript :
    (command : Text) (cwd : Option Text) (env : Env) (shell_name : Text)
    → ((¬ Named env) × (build_posix_command command cwd env shell_name ≡ none))
      ⊎ (Named env
          × ((script : Text) × (whole : Text) × Exports command env script
              × RunsIn cwd script whole
              × RunsScript shell_name whole (build_posix_command command cwd env shell_name)))
unfolding build_posix_command
build_posix_command-RunsScript command cwd env shell_name =
    let named = assert_valid_environment-Named env in
    elim (Bool-cases (assert_valid_environment env)) [
      | inl valid ↦ inr (
        named.0 valid,
        (
          with_env env command,
          with_cwd cwd (with_env env command),
          with_env-Exports env command,
          with_cwd-RunsIn cwd (with_env env command),
          posix-RunsScript command cwd env shell_name valid,
        ),
      )
      | inr bad ↦ inl ((λ n. cc (bad, named.1 n)), rw (bad, build_posix_command) refl)
    ]
