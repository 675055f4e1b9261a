-- ===== src/HostKeys/Tests.antt =====
-- Runs of the host key checks of src/session.ts, and their theorems at concrete inputs.
use oaslananka_lab_mcp_ssh_t.Prelude.{
  ℕ, ◌≡◌, refl, ◌≢◌, ◌↔◌, true, false, Option, none, some, List, [], ◌∷◌, keep,
}
use oaslananka_lab_mcp_ssh_t.Text.{Text, codes, text_eq}
use oaslananka_lab_mcp_ssh_t.HostKeys.KnownHosts.{verify_known_host_key, first_verdict}
use oaslananka_lab_mcp_ssh_t.HostKeys.Pinning.{verify_accept_new-first_key, after_offers}
use oaslananka_lab_mcp_ssh_t.HostKeys.KnownHosts.Decisive.{
  verify_known_host_key-FileVouches, FileVouches,
}
use oaslananka_lab_mcp_ssh_t.HostKeys.Address.{address-injective}
use oaslananka_lab_mcp_ssh_t.HostKeys.{
  verify_accept_new_host_key, normalize_sha256_fingerprint, address,
}

address_run : address (codes "h") 2222 ≡ codes "h:2222"
unfolding address
address_run = refl

-- A blob is its own fingerprint, and no digest is computed.
abbrev prints : Text → Option (List Text)
prints blob = some (blob ∷ [])

abbrev no_digest : Text → Text → Option Text
no_digest salt candidate = none

-- The key of `h1` is found, and the revocation below it is not read.
lines_run :
    verify_known_host_key no_digest prints
      (λ path. some (codes "# comment\nother ssh-rsa K\n*.x,h? ssh-rsa  K\n@revoked h1 ssh-rsa K"))
      (codes "h1")
      22
      (codes "f")
      (codes "K")
    ≡ true
unfolding verify_known_host_key oaslananka_lab_mcp_ssh_t.HostKeys.KnownHosts.file_lines
    oaslananka_lab_mcp_ssh_t.HostKeys.KnownHosts.parse_known_host_line text_eq keep
    oaslananka_lab_mcp_ssh_t.HostKeys.KnownHosts.known_host_pattern_matches
    normalize_sha256_fingerprint
lines_run = refl

revoked_run :
    verify_known_host_key no_digest prints
      (λ path. some (codes "@revoked h1 ssh-rsa X\r\nh1 ssh-rsa K"))
      (codes "h1")
      22
      (codes "f")
      (codes "SHA256:K")
    ≡ false
unfolding verify_known_host_key oaslananka_lab_mcp_ssh_t.HostKeys.KnownHosts.file_lines
    oaslananka_lab_mcp_ssh_t.HostKeys.KnownHosts.parse_known_host_line text_eq keep
    oaslananka_lab_mcp_ssh_t.HostKeys.KnownHosts.known_host_pattern_matches
revoked_run = refl

abbrev known : Text
known = codes "h1 ssh-rsa K"

verify_known_host_key-FileVouches_example :
    (verify_known_host_key no_digest prints
        (λ path. some known)
        (codes "h1")
        22
        (codes "f")
        (codes "K")
      ≡ true)
    ↔ FileVouches no_digest prints (λ path. some known) (codes "h1") 22 (codes "f") (codes "K")
verify_known_host_key-FileVouches_example =
    verify_known_host_key-FileVouches no_digest prints (λ path. some known) (codes "h1") 22
      (codes "f") (codes "K")

first_run : (verify_accept_new_host_key [] (codes "h") 22 (codes "SHA256:a")).1 ≡ true
unfolding verify_accept_new_host_key
first_run = refl

fingerprint_run : normalize_sha256_fingerprint (codes "SHA256:a") ≡ codes "a"
unfolding normalize_sha256_fingerprint
fingerprint_run = refl

not_empty : normalize_sha256_fingerprint (codes "SHA256:a") ≢ []
not_empty h = cc (fingerprint_run, h)

verify_accept_new-first_key_example :
    ((verify_accept_new_host_key
        (after_offers
          (verify_accept_new_host_key [] (codes "h") 22 (codes "SHA256:a")).0
          (record { host = codes "h"; port = 22; hashed_key = codes "b" } ∷ []))
        (codes "h")
        22
        (codes "a")).1
      ≡ true)
    ↔ (normalize_sha256_fingerprint (codes "a") ≡ normalize_sha256_fingerprint (codes "SHA256:a"))
verify_accept_new-first_key_example =
    verify_accept_new-first_key [] (codes "h") 22 (codes "SHA256:a") (codes "a")
      (record { host = codes "h"; port = 22; hashed_key = codes "b" } ∷ []) first_run not_empty

address-injective_example : (◌≡◌ {A = Text} (codes "h") (codes "h")) × (◌≡◌ {A = ℕ} 2222 2222)
address-injective_example = address-injective (codes "h") (codes "h") 2222 2222 refl
