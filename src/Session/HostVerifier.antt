-- ===== src/Session/HostVerifier.antt =====
-- The host verifier that `openSession` of src/session.ts hands to the SSH library: the expected
-- fingerprint of the call, or else the policy for host keys.
use oaslananka_lab_mcp_ssh_t.Prelude.{
  ℕ, ◌≡◌, refl, sym, ap, subst, ◌∙◌, ◌↔◌, ◌⊎◌, inl, inr, Bool, true, false, Option, none, some,
  List, [], ◌∷◌, Bool-cases, Option-cases, get_or,
}
use oaslananka_lab_mcp_ssh_t.Text.{Text, text_eq, text_eq_iff}
use oaslananka_lab_mcp_ssh_t.Policy.Engine.{truthy}
use oaslananka_lab_mcp_ssh_t.HostKeys.{
  accepted_key, address, verify_accepted, AcceptedKeys, normalize_sha256_fingerprint,
  verify_accept_new_host_key,
}
use oaslananka_lab_mcp_ssh_t.HostKeys.KnownHosts.{verify_known_host_key}
use oaslananka_lab_mcp_ssh_t.HostKeys.KnownHosts.Decisive.{
  FileVouches, verify_known_host_key-FileVouches,
}
use oaslananka_lab_mcp_ssh_t.Session.{
  ConnectionParams, Security, HostKeyPolicy, strict, accept_new, insecure, resolve_host_key_policy,
}

module _ (hmac_sha1 : Text → Text → Option Text) (fingerprints : Text → Option (List Text))
    (read_file : Text → Option Text) (security : Security) (params : ConnectionParams) where
  abbrev port_of : ℕ
  port_of = get_or params.port 22

  abbrev known_hosts_path_of : Text
  known_hosts_path_of = get_or params.known_hosts_path security.known_hosts_path

  policy_verifier : HostKeyPolicy → AcceptedKeys → Text → AcceptedKeys × Bool
  policy_verifier insecure m hashed_key = (m, true)
  policy_verifier accept_new m hashed_key =
      verify_accept_new_host_key m params.host port_of hashed_key
  policy_verifier strict m hashed_key = (
    m,
    verify_known_host_key hmac_sha1 fingerprints read_file params.host port_of known_hosts_path_of
        hashed_key,
  )

  pub host_verifier : AcceptedKeys → Text → AcceptedKeys × Bool
  unfolding policy_verifier
  host_verifier m hashed_key = elim (truthy params.expected_host_key_sha256) [
    | some expected ↦ (
      m,
      text_eq (normalize_sha256_fingerprint hashed_key) (normalize_sha256_fingerprint expected),
    )
    | none ↦ policy_verifier (resolve_host_key_policy security params) m hashed_key
  ]

  -- What the call asks for: its own policy; or else its flag, of which true is `strict` and false
  -- is `insecure`; or else the policy of the server's configuration.
  pub data Asks : HostKeyPolicy → Type 0 where
    by_policy : {policy : HostKeyPolicy} → params.host_key_policy ≡ some policy → Asks policy
    by_flag :
        params.host_key_policy ≡ none → params.strict_host_key_checking ≡ some true → Asks strict
    by_cleared_flag :
        params.host_key_policy ≡ none → params.strict_host_key_checking ≡ some false → Asks insecure
    by_default :
        params.host_key_policy ≡ none
        → params.strict_host_key_checking ≡ none
        → Asks security.host_key_policy

  resolve_host_key_policy-Asks : Asks (resolve_host_key_policy security params)
  unfolding resolve_host_key_policy
  resolve_host_key_policy-Asks = elim (Option-cases params.host_key_policy) [
    | inr (policy, given) ↦
        let e : resolve_host_key_policy security params ≡ policy =
          rw (given, resolve_host_key_policy) refl in
        subst Asks (sym e) (by_policy given)
    | inl no_policy ↦ elim (Option-cases params.strict_host_key_checking) [
      | inl no_flag ↦
          let e : resolve_host_key_policy security params ≡ security.host_key_policy =
            rw (no_policy, no_flag, resolve_host_key_policy) refl in
          subst Asks (sym e) (by_default no_policy no_flag)
      | inr (flag, given) ↦ elim (Bool-cases flag) [
        | inl raised ↦
            let on : params.strict_host_key_checking ≡ some true = given ∙ ap some raised in
            let e : resolve_host_key_policy security params ≡ strict =
              rw (no_policy, on, resolve_host_key_policy) refl in
            subst Asks (sym e) (by_flag no_policy on)
        | inr cleared ↦
            let off : params.strict_host_key_checking ≡ some false = given ∙ ap some cleared in
            let e : resolve_host_key_policy security params ≡ insecure =
              rw (no_policy, off, resolve_host_key_policy) refl in
            subst Asks (sym e) (by_cleared_flag no_policy off)
      ]
    ]
  ]

  -- The memory has no key for the host and the port, or the same one.
  pub Unchanged : AcceptedKeys → Text → Type 0
  Unchanged m hashed_key =
      (truthy (accepted_key (address params.host port_of) m) ≡ none)
      ⊎ (accepted_key (address params.host port_of) m
          ≡ some (normalize_sha256_fingerprint hashed_key))

  -- What a policy asks of a key.
  pub Trusts : HostKeyPolicy → AcceptedKeys → Text → Type 0
  unfolding Unchanged
  Trusts insecure m hashed_key = Unit
  Trusts accept_new m hashed_key = Unchanged m hashed_key
  Trusts strict m hashed_key =
      FileVouches hmac_sha1 fingerprints read_file params.host port_of known_hosts_path_of
        hashed_key

  verify_accepted-Same :
      (m : AcceptedKeys) (key normalized : Text) (seen : Option Text)
      → ((verify_accepted m key normalized seen).1 ≡ true)
        ↔ ((truthy seen ≡ none) ⊎ (seen ≡ some normalized))
  unfolding verify_accepted
  verify_accepted-Same m key normalized none = (λ h. inl refl, λ h. refl)
  verify_accepted-Same m key normalized (some []) = (λ h. inl refl, λ h. refl)
  verify_accepted-Same m key normalized (some (c ∷ accepted)) = (
    λ h. inr (ap some ((text_eq_iff _ _).0 h)),
    λ h. elim h [ inl bad ↦ cc | inr same ↦ (text_eq_iff (c ∷ accepted) normalized).1 (cc) ],
  )

  policy_verifier-Trusts :
      (policy : HostKeyPolicy) (m : AcceptedKeys) (hashed_key : Text)
      → ((policy_verifier policy m hashed_key).1 ≡ true) ↔ Trusts policy m hashed_key
  unfolding policy_verifier Trusts Unchanged verify_accept_new_host_key
  policy_verifier-Trusts insecure m hashed_key = (λ h. tt, λ h. refl)
  policy_verifier-Trusts accept_new m hashed_key =
      verify_accepted-Same m (address params.host port_of) (normalize_sha256_fingerprint hashed_key)
        (accepted_key (address params.host port_of) m)
  policy_verifier-Trusts strict m hashed_key =
      verify_known_host_key-FileVouches hmac_sha1 fingerprints read_file params.host port_of
        known_hosts_path_of hashed_key

  -- With an expected fingerprint, a key is accepted exactly if it has that fingerprint, whatever
  -- the policy. Without one, there is a policy that the call asks for (its own, or else the one its
  -- flag for strict checking means, or else the server's) that decides: `strict` accepts exactly
  -- the keys for which a line of the known hosts vouches, `accept-new` those of a host and port for
  -- which its memory has no key or the same one, and `insecure` every key.
  pub host_verifier-Trusts :
      (m : AcceptedKeys) (hashed_key : Text)
      → ((expected : Text) × (truthy params.expected_host_key_sha256 ≡ some expected)
          × (((host_verifier m hashed_key).1 ≡ true)
              ↔ (normalize_sha256_fingerprint hashed_key ≡ normalize_sha256_fingerprint expected)))
        ⊎ ((truthy params.expected_host_key_sha256 ≡ none)
            × ((policy : HostKeyPolicy) × Asks policy
                × (((host_verifier m hashed_key).1 ≡ true) ↔ Trusts policy m hashed_key)))
  unfolding host_verifier
  host_verifier-Trusts m hashed_key = elim (Option-cases (truthy params.expected_host_key_sha256)) [
    | inl none_given ↦ inr (
      none_given,
      (
        resolve_host_key_policy security params,
        resolve_host_key_policy-Asks,
        rw (none_given, host_verifier)
            (policy_verifier-Trusts (resolve_host_key_policy security params) m hashed_key),
      ),
    )
    | inr (expected, e) ↦ inl (expected, e, rw (e, host_verifier) (text_eq_iff _ _))
  ]
