-- ===== src/Shell/Reading.antt =====
-- How a POSIX shell reads the words that src/shell.ts and src/remote/agent-executor.ts quote.
use oaslananka_lab_mcp_ssh_t.Prelude.{
  ℕ, ◌≡◌, refl, ◌∙◌, inl, inr, Bool, true, false, ◌&&◌, ◌||◌, Option, none, some, [], ◌∷◌, ◌++◌,
  append_assoc, arith, leb, eqb, if◌then◌else◌, Bool-cases,
}
use oaslananka_lab_mcp_ssh_t.Text.{Text, codes}
use oaslananka_lab_mcp_ssh_t.Shell.{
  shell_name_of, OsInfo, with_env, with_cwd, assert_valid_environment, sudo_script, Env,
  build_posix_command, build_sudo_command, replace_quotes, quoted, shell_quote, posix_single_quote,
}

-- Where the shell is in a word: outside of quotes, between single or double ones, or behind a
-- backslash.
pub data Place : Type 0 where
  outside single double escaped : Place

-- A character outside of quotes that stands for itself.
is_plain : ℕ → Bool
is_plain c =
    (leb b'A' c && leb c b'Z')
    || (leb b'a' c && leb c b'z')
    || (leb b'0' c && leb c b'9')
    || eqb c b'_'
    || eqb c b'-'
    || eqb c b'/'
    || eqb c b'.'

abbrev prepend : ℕ → Option Text → Option Text
prepend c none = none
prepend c (some t) = some (c ∷ t)

-- The value of a word; none if the text is not one word, or the quotes do not end, or something in
-- it would be expanded.
pub read_word : Place → Text → Option Text
unfolding is_plain
read_word outside [] = some []
read_word single [] = none
read_word double [] = none
read_word escaped [] = none
read_word outside (c ∷ s) =
    let in_single = read_word single s in
    let in_double = read_word double s in
    let in_escape = read_word escaped s in
    let rest = read_word outside s in
    if eqb c b'\''
    then in_single
    else if eqb c b'"'
    then in_double
    else if eqb c b'\\'
    then in_escape
    else if is_plain c
    then prepend c rest
    else none
read_word single (c ∷ s) =
    let rest = read_word outside s in
    let more = read_word single s in if eqb c b'\'' then rest else prepend c more
read_word double (c ∷ s) =
    let rest = read_word outside s in
    let more = read_word double s in
    if eqb c b'"'
    then rest
    else if eqb c b'\\' || eqb c b'$' || eqb c b'`'
    then none
    else prepend c more
read_word escaped (c ∷ s) = prepend c (read_word outside s)

-- A quoting whose text for a quote reads, between single quotes, as a quote.
abbrev QuotesQuote : Text → Type 0
QuotesQuote by =
    (rest : Text) → read_word single (by ++ rest) ≡ prepend b'\'' (read_word single rest)

single_step :
    (c : ℕ) (s : Text)
    → eqb c b'\'' ≡ false
    → read_word single (c ∷ s) ≡ prepend c (read_word single s)
unfolding read_word
single_step c s other = rw other refl

read-replace_quotes :
    (value by : Text)
    → QuotesQuote by
    → read_word single (replace_quotes by value ++ (b'\'' ∷ [])) ≡ some value
unfolding read_word
read-replace_quotes [] by step = refl
read-replace_quotes (c ∷ value) by step = elim (Bool-cases (eqb c b'\'')) [
  | inl quote ↦
      let same : c ≡ b'\'' = ground arith in
      rw (quote, append_assoc by (replace_quotes by value) (b'\'' ∷ []))
        (step (replace_quotes by value ++ (b'\'' ∷ []))
          ∙ rw (read-replace_quotes value by step, same) refl)
  | inr other ↦ rw other (
      single_step c (replace_quotes by value ++ (b'\'' ∷ [])) other
      ∙ rw (read-replace_quotes value by step) refl)
]

read-quoted : (value by : Text) → QuotesQuote by → read_word outside (quoted by value) ≡ some value
unfolding read_word
read-quoted value by step = read-replace_quotes value by step

shell_quote-QuotesQuote : QuotesQuote (codes "'\"'\"'")
unfolding read_word
shell_quote-QuotesQuote rest = refl

posix_single_quote-QuotesQuote : QuotesQuote (codes "'\\''")
unfolding read_word
posix_single_quote-QuotesQuote rest = refl

-- A POSIX shell reads a text that either quoting has quoted as one word, the text itself, whatever
-- is in it.
pub read-shell_quote :
    (value : Text)
    → (read_word outside (shell_quote value) ≡ some value)
      × (read_word outside (posix_single_quote value) ≡ some value)
unfolding shell_quote posix_single_quote
read-shell_quote value = (
  read-quoted value _ shell_quote-QuotesQuote,
  read-quoted value _ posix_single_quote-QuotesQuote,
)

-- A command line: the name of the shell, `-lc`, and one word that the shell reads as the script.
pub record RunsScript (shell_name script : Text) (line : Option Text) : Type 0 where
  pub word : Text
  pub is_line : line ≡ some (shell_name ++ codes " -lc " ++ word)
  pub reads : read_word outside word ≡ some script

pub posix-RunsScript :
    (command : Text) (cwd : Option Text) (env : Env) (shell_name : Text)
    → assert_valid_environment env ≡ true
    → RunsScript shell_name
        (with_cwd cwd (with_env env command))
        (build_posix_command command cwd env shell_name)
unfolding build_posix_command
posix-RunsScript command cwd env shell_name valid = record {
  word = shell_quote (with_cwd cwd (with_env env command));
  is_line = rw valid refl;
  reads = (read-shell_quote (with_cwd cwd (with_env env command))).0;
}

-- With a directory, the script of a sudo command on a POSIX host runs `cd` under sudo, and the
-- command itself after `&&`, outside of sudo.
build_sudo_command-cwd :
    (command : Text) (os_info : OsInfo) (c : ℕ) (cwd : Text)
    → os_info.is_windows ≡ false
    → (word : Text) × (read_word outside word ≡ some (c ∷ cwd))
      × RunsScript
          (shell_name_of os_info)
          (codes "sudo -n cd " ++ word ++ codes " && " ++ command)
          (build_sudo_command command os_info (some (c ∷ cwd)))
unfolding build_sudo_command sudo_script with_cwd with_env assert_valid_environment
build_sudo_command-cwd command os_info c cwd posix = (
  shell_quote (c ∷ cwd),
  (read-shell_quote (c ∷ cwd)).0,
  rw posix (
      posix-RunsScript (codes "sudo -n cd " ++ shell_quote (c ∷ cwd) ++ codes " && " ++ command)
        none [] (shell_name_of os_info) refl),
)
