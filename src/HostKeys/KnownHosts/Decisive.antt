-- ===== src/HostKeys/KnownHosts/Decisive.antt =====
-- Which line of known_hosts decides.
use oaslananka_lab_mcp_ssh_t.Prelude.{
  ℕ, ◌≡◌, refl, subst, ◌∙◌, ◌≢◌, ◌↔◌, ◌⊎◌, inl, inr, Bool, true, false, not, Option, none, some,
  List, [], ◌∷◌, if◌then◌else◌, Option-cases,
}
use oaslananka_lab_mcp_ssh_t.Text.{Text}
use oaslananka_lab_mcp_ssh_t.HostKeys.{normalize_sha256_fingerprint}
use oaslananka_lab_mcp_ssh_t.HostKeys.KnownHosts.{
  file_lines, verify_known_host_key, first_verdict, known_host_pattern_matches, names_key,
  is_revoked, parse_known_host_line, KnownHostLine, line_verdict,
}

-- The verdict of a line by its three tests.
abbrev verdict_of : Bool → Bool → Bool → Option Bool
verdict_of named revoked held =
    if not named then none else if revoked then some false else if held then some true else none

three_tests :
    (m r k : Bool)
    → ((verdict_of m r k ≡ none) × (m ≡ true → (r ≡ false) × (k ≡ false)))
      ⊎ ((m ≡ true)
          × (((r ≡ true) × (verdict_of m r k ≡ some false))
              ⊎ ((r ≡ false) × (k ≡ true) × (verdict_of m r k ≡ some true))))
three_tests false r k = inl (refl, λ h. cc)
three_tests true true k = inr (refl, inl (refl, refl))
three_tests true false true = inr (refl, inr (refl, refl, refl))
three_tests true false false = inl (refl, λ h. (refl, refl))

module _ (hmac_sha1 : Text → Text → Option Text) (fingerprints : Text → Option (List Text))
    (host : Text) (port : ℕ) (expected : Text) where
  -- The line is read and names the host.
  abbrev IsFor : Text → KnownHostLine → Type 0
  IsFor text line =
      (parse_known_host_line text ≡ some line)
      × (known_host_pattern_matches hmac_sha1 line.hosts host port ≡ true)

  -- Lines, of which the first one that names the host and is revoked or holds the key is not
  -- revoked; on the lines before it the host is not named, or the key is another one.
  pub data Vouches : List Text → Type 0 where
    here :
        {text : Text} {lines : List Text} (line : KnownHostLine)
        → IsFor text line
        → is_revoked hmac_sha1 fingerprints line ≡ false
        → names_key hmac_sha1 fingerprints expected line ≡ true
        → Vouches (text ∷ lines)
    skip :
        {text : Text} {lines : List Text}
        → ((line : KnownHostLine)
            → IsFor text line
            → (is_revoked hmac_sha1 fingerprints line ≡ false)
              × (names_key hmac_sha1 fingerprints expected line ≡ false))
        → Vouches lines
        → Vouches (text ∷ lines)

  verdict_unread :
      (text : Text)
      → parse_known_host_line text ≡ none
      → line_verdict hmac_sha1 fingerprints host port expected text ≡ none
  unfolding line_verdict
  verdict_unread text bad = rw (bad, line_verdict) refl

  verdict_read :
      (text : Text) (line : KnownHostLine)
      → parse_known_host_line text ≡ some line
      → line_verdict hmac_sha1 fingerprints host port expected text
        ≡ verdict_of
            (known_host_pattern_matches hmac_sha1 line.hosts host port)
            (is_revoked hmac_sha1 fingerprints line)
            (names_key hmac_sha1 fingerprints expected line)
  unfolding line_verdict
  verdict_read text line e = rw (e, line_verdict) refl

  verdict-cases :
      (text : Text)
      → ((line_verdict hmac_sha1 fingerprints host port expected text ≡ none)
          × ((line : KnownHostLine)
              → IsFor text line
              → (is_revoked hmac_sha1 fingerprints line ≡ false)
                × (names_key hmac_sha1 fingerprints expected line ≡ false)))
        ⊎ (((line : KnownHostLine) × IsFor text line
            × (((is_revoked hmac_sha1 fingerprints line ≡ true)
                  × (line_verdict hmac_sha1 fingerprints host port expected text ≡ some false))
                ⊎ ((is_revoked hmac_sha1 fingerprints line ≡ false)
                    × (names_key hmac_sha1 fingerprints expected line ≡ true)
                    × (line_verdict hmac_sha1 fingerprints host port expected text ≡ some true)))))
  verdict-cases text = elim (Option-cases (parse_known_host_line text)) [
    | inl bad ↦ inl (verdict_unread text bad, λ line p. cc (bad, p.0))
    | inr (line, e) ↦
        elim (three_tests (known_host_pattern_matches hmac_sha1 line.hosts host port)
          (is_revoked hmac_sha1 fingerprints line)
          (names_key hmac_sha1 fingerprints expected line)) [
            | inl (undecided, f) ↦ inl (
              verdict_read text line e ∙ undecided,
              λ other p.
                  let same : line ≡ other = cc (e, p.0) in
                  subst
                    (λ l.
                      (known_host_pattern_matches hmac_sha1 l.hosts host port ≡ true)
                      → (is_revoked hmac_sha1 fingerprints l ≡ false)
                        × (names_key hmac_sha1 fingerprints expected l ≡ false))
                    same f p.1,
            )
            | inr (m, inl (r, v)) ↦ inr (line, (e, m), inl (r, verdict_read text line e ∙ v))
            | inr (m, inr (r, k, v)) ↦ inr (line, (e, m), inr (r, k, verdict_read text line e ∙ v))
          ]
  ]

  Vouches-cases :
      {text : Text} {lines : List Text}
      → Vouches (text ∷ lines)
      → ((line : KnownHostLine) × IsFor text line
          × (is_revoked hmac_sha1 fingerprints line ≡ false)
          × (names_key hmac_sha1 fingerprints expected line ≡ true))
        ⊎ (((line : KnownHostLine)
              → IsFor text line
              → (is_revoked hmac_sha1 fingerprints line ≡ false)
                × (names_key hmac_sha1 fingerprints expected line ≡ false))
            × Vouches lines)
  Vouches-cases (here line p r k) = inl (line, p, r, k)
  Vouches-cases (skip f v) = inr (f, v)

  -- A list of lines accepts the key exactly when a line vouches for it: the first line that names
  -- the host and is revoked or holds the key is not revoked. A revocation below a line that holds
  -- the key is not read, and one above it rejects the host's every key.
  first_verdict-Vouches :
      (lines : List Text)
      → (first_verdict hmac_sha1 fingerprints host port expected lines ≡ true) ↔ Vouches lines
  unfolding first_verdict
  first_verdict-Vouches [] = (λ h. cc, λ v. elim v [ ])
  first_verdict-Vouches (text ∷ lines) = elim (verdict-cases text) [
    | inl (v, f) ↦
        rw (v, first_verdict)
          (
            λ h. skip f ((first_verdict-Vouches lines).0 h),
            λ w. elim (Vouches-cases w) [
              | inl (line, p, r, k) ↦ cc (k, (f line p).1)
              | inr (g, rest) ↦ (first_verdict-Vouches lines).1 rest
            ],
          )
    | inr (line, p, inl (r, v)) ↦
        rw (v, first_verdict)
          (
            λ h. cc,
            λ w. elim (Vouches-cases w) [
              | inl (other, q, s, k) ↦ let same : line ≡ other = cc (p.0, q.0) in cc (r, s, same)
              | inr (g, rest) ↦ cc (r, (g line p).0)
            ],
          )
    | inr (line, p, inr (r, k, v)) ↦ rw (v, first_verdict) (λ h. here line p r k, λ w. refl)
  ]

-- The file can be read, and a line of it vouches for the key.
pub record FileVouches (hmac_sha1 : Text → Text → Option Text)
    (fingerprints : Text → Option (List Text)) (read_file : Text → Option Text) (host : Text)
    (port : ℕ) (path hashed_key : Text) : Type 0 where
  pub path_given : path ≢ []
  pub contents : Text
  pub read : read_file path ≡ some contents
  pub vouches :
      Vouches hmac_sha1 fingerprints host port
        (normalize_sha256_fingerprint hashed_key)
        (file_lines contents)

-- The policy `strict` accepts a key exactly when a path of known hosts is given, the file can be
-- read, and a line of it vouches for the key: the first line that names the host and is revoked or
-- holds the key is not revoked.
pub verify_known_host_key-FileVouches :
    (hmac_sha1 : Text → Text → Option Text) (fingerprints : Text → Option (List Text))
    (read_file : Text → Option Text) (host : Text) (port : ℕ) (path hashed_key : Text)
    → (verify_known_host_key hmac_sha1 fingerprints read_file host port path hashed_key ≡ true)
      ↔ FileVouches hmac_sha1 fingerprints read_file host port path hashed_key
unfolding verify_known_host_key
verify_known_host_key-FileVouches hmac_sha1 fingerprints read_file host port [] hashed_key =
    (λ h. cc, λ f. absurd (f.path_given refl))
verify_known_host_key-FileVouches hmac_sha1 fingerprints read_file host port (c ∷ path) hashed_key =
    elim (Option-cases (read_file (c ∷ path))) [
      | inl unread ↦ rw (unread, verify_known_host_key) (λ h. cc, λ f. cc (unread, f.read))
      | inr (contents, read) ↦
          let test =
            first_verdict-Vouches hmac_sha1 fingerprints host port
              (normalize_sha256_fingerprint hashed_key) (file_lines contents) in
          rw (read, verify_known_host_key)
            (
              λ h. record {
                path_given = λ e. cc;
                contents = contents;
                read = read;
                vouches = test.0 h;
              },
              λ f.
                  let same : f.contents ≡ contents = cc (f.read, read) in
                  test.1 (
                    subst
                      (λ text.
                        Vouches hmac_sha1 fingerprints host port
                          (normalize_sha256_fingerprint hashed_key) (file_lines text))
                      same f.vouches),
            )
    ]
