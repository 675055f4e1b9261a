-- ===== src/HostKeys/KnownHosts.antt =====
-- `verifyKnownHostKey` of src/session.ts: the lines of known_hosts, their patterns of hosts, and
-- the line that decides. The file, the digests of node:crypto and base64 are parameters.
pub mod Decisive
use oaslananka_lab_mcp_ssh_t.Prelude.{
  ℕ, Bool, true, false, not, ◌&&◌, ◌||◌, Option, none, some, List, [], ◌∷◌, ◌++◌, map, eqb,
  if◌then◌else◌, any, keep,
}
use oaslananka_lab_mcp_ssh_t.Text.{Text, codes, text_eq, starts_with, is_space, trim}
use oaslananka_lab_mcp_ssh_t.HostKeys.{normalize_sha256_fingerprint, decimal}

abbrev known_host_key_types : List Text
known_host_key_types =
    codes "ssh-ed25519"
    ∷ codes "ssh-ed25519-cert-v01@openssh.com"
    ∷ codes "ssh-rsa"
    ∷ codes "ssh-rsa-cert-v01@openssh.com"
    ∷ codes "rsa-sha2-256"
    ∷ codes "rsa-sha2-256-cert-v01@openssh.com"
    ∷ codes "rsa-sha2-512"
    ∷ codes "rsa-sha2-512-cert-v01@openssh.com"
    ∷ codes "ecdsa-sha2-nistp256"
    ∷ codes "ecdsa-sha2-nistp256-cert-v01@openssh.com"
    ∷ codes "ecdsa-sha2-nistp384"
    ∷ codes "ecdsa-sha2-nistp384-cert-v01@openssh.com"
    ∷ codes "ecdsa-sha2-nistp521"
    ∷ codes "ecdsa-sha2-nistp521-cert-v01@openssh.com"
    ∷ codes "sk-ssh-ed25519@openssh.com"
    ∷ codes "sk-ssh-ed25519-cert-v01@openssh.com"
    ∷ codes "sk-ecdsa-sha2-nistp256@openssh.com"
    ∷ codes "sk-ecdsa-sha2-nistp256-cert-v01@openssh.com"
    ∷ []

add_code : ℕ → List Text → List Text
add_code c [] = (c ∷ []) ∷ []
add_code c (part ∷ parts) = (c ∷ part) ∷ parts

-- `s.split(separator)` for one character
unfoldable pub split_on : ℕ → Text → List Text
unfolding add_code
split_on separator [] = [] ∷ []
split_on separator (c ∷ s) =
    let parts = split_on separator s in if eqb c separator then [] ∷ parts else add_code c parts

-- `s.split(/\s+/)` of a text that starts and ends with no white space
unfoldable pub words : Text → List Text
unfolding split_on
words s =
    keep (λ part. not (text_eq part [])) (split_on 32 (map (λ c. if is_space c then 32 else c) s))

pub record KnownHostLine : Type 0 where
  pub marker : Option Text
  pub hosts : Text
  pub key_blob : Text

is_key_type : Text → Bool
is_key_type type = any (text_eq type) known_host_key_types

-- The fields of a line, whose first field may be a marker.
fields_line : List Text → Option KnownHostLine
unfolding is_key_type starts_with
fields_line (a ∷ b ∷ c ∷ []) =
    if not (starts_with (codes "@") a) && is_key_type b
    then some (record { marker = none; hosts = a; key_blob = c })
    else none
fields_line (a ∷ b ∷ c ∷ d ∷ rest) =
    if starts_with (codes "@") a
    then if is_key_type c then some (record { marker = some a; hosts = b; key_blob = d }) else none
    else if is_key_type b
    then some (record { marker = none; hosts = a; key_blob = c })
    else none
fields_line _ = none

unfoldable pub parse_known_host_line : Text → Option KnownHostLine
unfolding fields_line words trim starts_with
parse_known_host_line line =
    let trimmed = trim line in
    if text_eq trimmed [] || starts_with (codes "#") trimmed
    then none
    else fields_line (words trimmed)

-- `s.split(/\r?\n/)`: a carriage return at the end of each line but the last one goes.
unfoldable pub file_lines : Text → List Text
unfolding split_on
file_lines contents = trimmed (split_on 10 contents)
  where
    without_return : Text → Text
    without_return [] = []
    without_return (c ∷ []) = if eqb c 13 then [] else c ∷ []
    without_return (c ∷ d ∷ s) = c ∷ without_return (d ∷ s)

    trimmed : List Text → List Text
    trimmed [] = []
    trimmed (last ∷ []) = last ∷ []
    trimmed (line ∷ next ∷ lines) = without_return line ∷ trimmed (next ∷ lines)

-- what `.` matches in a regular expression
is_dot_char : ℕ → Bool
is_dot_char c = not (eqb c 10 || eqb c 13 || eqb c 0x2028 || eqb c 0x2029)

-- The pattern of a host as a regular expression from the start to the end: `*` is `.*`, `?` is `.`.
-- `.*`, and one character of the pattern, before what the rest of the pattern matches
star : (Text → Bool) → Text → Bool
unfolding is_dot_char
star next [] = next []
star next (c ∷ s) = next (c ∷ s) || (is_dot_char c && star next s)

one : ℕ → (Text → Bool) → Text → Bool
unfolding is_dot_char
one p next [] = false
one p next (c ∷ s) = (if eqb p b'?' then is_dot_char c else eqb p c) && next s

glob : Text → Text → Bool
unfolding star one
glob [] s = text_eq s []
glob (p ∷ ps) s = if eqb p b'*' then star (glob ps) s else one p (glob ps) s

-- `/^\|1\|([^|]+)\|([^|]+)$/`: the salt and the digest
hashed_parts : List Text → Option (Text × Text)
unfolding text_eq
hashed_parts ([] ∷ version ∷ (a ∷ salt) ∷ (b ∷ digest) ∷ []) =
    if text_eq version (codes "1") then some (a ∷ salt, b ∷ digest) else none
hashed_parts _ = none

-- The digest of a candidate under a salt is a parameter; `none` is an error that it throws.
module _ (hmac_sha1 : Text → Text → Option Text) where
  pub digests_match : Text × Text → List Text → Bool
  digests_match parts [] = false
  digests_match (salt, digest) (candidate ∷ candidates) =
      let rest = digests_match (salt, digest) candidates in
      elim (hmac_sha1 salt candidate) [ none ↦ false | some actual ↦ text_eq actual digest || rest ]

  pub hashed_known_host_pattern_matches : Text → List Text → Bool
  unfolding digests_match hashed_parts split_on
  hashed_known_host_pattern_matches pattern candidates =
      elim (hashed_parts (split_on b'|' pattern)) [
        | none ↦ false
        | some parts ↦ digests_match parts candidates
      ]

  pub pattern_matches : Text → ℕ → Text → Bool
  unfolding hashed_known_host_pattern_matches glob
  pattern_matches host port pattern =
      let candidates = host ∷ (b'[' ∷ host ++ codes "]:" ++ decimal port) ∷ [] in
      if starts_with (codes "|") pattern
      then hashed_known_host_pattern_matches pattern candidates
      else any (λ candidate. text_eq candidate pattern) candidates || glob pattern host

  unfoldable pub known_host_pattern_matches : Text → Text → ℕ → Bool
  unfolding pattern_matches split_on
  known_host_pattern_matches hosts host port = any (pattern_matches host port) (split_on b',' hosts)

  -- The fingerprints of a key blob; `none` is an error that the digest throws.
  module _ (fingerprints : Text → Option (List Text)) where
    pub names_key : Text → KnownHostLine → Bool
    names_key expected line = elim (fingerprints line.key_blob) [
      | none ↦ false
      | some prints ↦ any (λ print. text_eq (normalize_sha256_fingerprint print) expected) prints
    ]

    pub is_revoked : KnownHostLine → Bool
    is_revoked line = elim line.marker [ none ↦ false | some m ↦ text_eq m (codes "@revoked") ]

    -- What one line says of the key: it decides, or the next line is read.
    pub line_verdict : Text → ℕ → Text → Text → Option Bool
    unfolding names_key is_revoked
    line_verdict host port expected text = elim (parse_known_host_line text) [
      | none ↦ none
      | some line ↦
          if not (known_host_pattern_matches line.hosts host port)
          then none
          else if is_revoked line
          then some false
          else if names_key expected line
          then some true
          else none
    ]

    pub first_verdict : Text → ℕ → Text → List Text → Bool
    first_verdict host port expected [] = false
    first_verdict host port expected (line ∷ lines) =
        let rest = first_verdict host port expected lines in
        elim (line_verdict host port expected line) [ none ↦ rest | some verdict ↦ verdict ]

    -- `read_file` gives none where the file cannot be read.
    unfoldable pub verify_known_host_key : (Text → Option Text) → Text → ℕ → Text → Text → Bool
    unfolding first_verdict line_verdict split_on
    verify_known_host_key read_file host port [] hashed_key = false
    verify_known_host_key read_file host port (c ∷ path) hashed_key = elim (read_file (c ∷ path)) [
      | none ↦ false
      | some contents ↦
          first_verdict host port (normalize_sha256_fingerprint hashed_key) (file_lines contents)
    ]
