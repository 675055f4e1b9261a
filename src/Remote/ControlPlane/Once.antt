-- ===== src/Remote/ControlPlane/Once.antt =====
-- An authorization code and an enrolment token of src/remote/control-plane.ts are good for one use.
use oaslananka_lab_mcp_ssh_t.Remote.Store.Redeem.{
  find_hash, mark_used, assign, unspent, spent, ledger, UniqueHash, Redeemable,
}
use oaslananka_lab_mcp_ssh_t.Remote.ControlPlane.State.{
  audit, hash_secret, new_control_plane, ControlPlane, RemoteConfig, External,
}
use oaslananka_lab_mcp_ssh_t.Remote.ControlPlane.Token.{handle_token, TokenGrant, TokenForm}
use oaslananka_lab_mcp_ssh_t.Remote.ControlPlane.Steps.{Steps}
use oaslananka_lab_mcp_ssh_t.Remote.ControlPlane.Secrets.{Follows}
use oaslananka_lab_mcp_ssh_t.Remote.Store.Spent.{
  mark_used-some, exec_all-UniqueHash, exec_all-spent,
}
use oaslananka_lab_mcp_ssh_t.Remote.Store.Tables.{
  get_enrollment_token_by_hash, mark_enrollment_token_used, token_table, code_table,
}
use oaslananka_lab_mcp_ssh_t.Remote.Store.Types.{
  AgentEnrollmentTokenRecord, AgentHostMetadata, Reply-cases, thrown, Failure, returned,
}
use oaslananka_lab_mcp_ssh_t.Remote.ControlPlane.Redemption.{Steps-Evolves}
use oaslananka_lab_mcp_ssh_t.Remote.ControlPlane.Token.Granted.{handle_token-granted}
use oaslananka_lab_mcp_ssh_t.Remote.ControlPlane.Enroll.{
  parse_agent_host_metadata, Enrolled, enroll_agent, handle_agent_enroll,
}
use oaslananka_lab_mcp_ssh_t.Remote.Store.Records.{get_agent, insert_audit, update_agent}
use oaslananka_lab_mcp_ssh_t.Remote.ControlPlane.Sockets.{is_revoked_agent}
use oaslananka_lab_mcp_ssh_t.Remote.ControlPlane.Install.{is_given}
use oaslananka_lab_mcp_ssh_t.Remote.Store.Vouchers.{find_hash-hash}
use oaslananka_lab_mcp_ssh_t.Prelude.{
  ℕ, ◌≤◌, String, ◌≡◌, refl, ap, ◌∙◌, inl, inr, true, not, ◌||◌, Option, none, some, List, [],
  arith, eq_refl, ltb, Bool-cases, Option-cases, get_or, is_some,
}

-- The tables of a state that the steps reach have unique hashes.
reached-UniqueHash :
    (ext : External) (config : RemoteConfig) (s : ControlPlane)
    → Steps ext config new_control_plane s
    → UniqueHash code_table s.store.oauth_authorization_codes
      × UniqueHash token_table s.store.agent_enrollment_tokens
reached-UniqueHash ext config s steps =
    let ((code_calls, e), (token_calls, f)) = Steps-Evolves ext config new_control_plane s steps in
    (
      rw e (exec_all-UniqueHash code_table code_calls [] tt),
      rw f (exec_all-UniqueHash token_table token_calls [] tt),
    )

later-spent :
    {A : Type 0} (table : Redeemable A) (h : String) (rows later : List A)
    → UniqueHash table rows
    → ledger table rows h ≡ spent
    → Follows table rows later
    → UniqueHash table later × (ledger table later h ≡ spent)
later-spent table h rows later u v (called, e) = rw e (exec_all-spent table called h rows u v)

-- A code is exchanged at most once: after a grant in a state that the steps reach from a new control
-- plane, and after any further steps, every request with the same code throws, at any time and
-- whatever else the request holds.
pub handle_token-once :
    (ext : External) (config : RemoteConfig) (form again : TokenForm) (now later : ℕ)
    (s t u : ControlPlane) (grant : TokenGrant)
    → Steps ext config new_control_plane s
    → handle_token ext config form now s ≡ (returned grant, t)
    → Steps ext config t u
    → get_or again.code "" ≡ get_or form.code ""
    → (failure : Failure) × ((handle_token ext config again later u).0 ≡ thrown failure)
handle_token-once ext config form again now later s t u grant reached e steps same =
    let h = ext.sha256_base64_url (get_or form.code "") in
    let unique = (reached-UniqueHash ext config s reached).0 in
    let (row, found, ok, v, kept, l) =
      handle_token-granted ext config form now s t grant unique e in
    let used : ledger code_table t.store.oauth_authorization_codes h ≡ spent =
      l h ∙ rw (eq_refl h) refl in
    let (still_unique, still) =
      later-spent code_table h _ _ kept used (Steps-Evolves ext config t u steps).0 in
    elim (Reply-cases (handle_token ext config again later u).0) [
      | inl (failure, f) ↦ (failure, f)
      | inr (other, f) ↦
          let (row, found, ok, v, kept, l) =
            handle_token-granted ext config again later u (handle_token ext config again later u).1
              other still_unique (ap (λ r. (r, (handle_token ext config again later u).1)) f) in
          absurd (let w = rw (same, still) at v in cc)
    ]

enroll_agent-marked :
    (row : AgentEnrollmentTokenRecord) (public_key : String) (host : AgentHostMetadata) (now : ℕ)
    (s : ControlPlane) (e : Enrolled)
    → (enroll_agent row public_key host now s).0 ≡ returned e
    → mark_used token_table row.token_hash now s.store.agent_enrollment_tokens
      ≡ some (enroll_agent row public_key host now s).1.store.agent_enrollment_tokens
unfolding enroll_agent mark_enrollment_token_used update_agent audit insert_audit
enroll_agent-marked row public_key host now s e h =
    elim (Option-cases (get_agent row.agent_id s.store)) [
      | inl bad ↦ absurd (let g = rw (bad, enroll_agent) at h in cc)
      | inr (agent, found) ↦ elim (Bool-cases (is_revoked_agent agent)) [
        | inl bad ↦ absurd (let g = rw (found, bad, enroll_agent) at h in cc)
        | inr kept ↦
            elim (Option-cases
              (mark_used token_table row.token_hash now s.store.agent_enrollment_tokens)) [
                | inl bad ↦ absurd (let g = rw (found, kept, bad, enroll_agent) at h in cc)
                | inr (rows, ok) ↦ rw (found, kept, ok, enroll_agent) refl
              ]
      ]
    ]

-- What an enrolment rests on: a row of the table for the hash of the token that is not used and has not
-- expired; and it leaves that row used and every other as it was.
handle_agent_enroll-enrolled :
    (ext : External) (token public_key : Option String) (host : Option AgentHostMetadata) (now : ℕ)
    (s t : ControlPlane) (e : Enrolled)
    → UniqueHash token_table s.store.agent_enrollment_tokens
    → handle_agent_enroll ext token public_key host now s ≡ (returned e, t)
    → let h = ext.sha256_base64_url (get_or token "") in
      (row : AgentEnrollmentTokenRecord) × (get_enrollment_token_by_hash h s.store ≡ some row)
      × (row.used_at ≡ none)
      × (now ≤ row.expires_at)
      × (ext.is_ed25519_public_key (get_or public_key "") ≡ true)
      × (ledger token_table s.store.agent_enrollment_tokens h ≡ unspent)
      × UniqueHash token_table t.store.agent_enrollment_tokens
      × ((k : String)
          → ledger token_table t.store.agent_enrollment_tokens k
            ≡ assign h spent (ledger token_table s.store.agent_enrollment_tokens) k)
unfolding handle_agent_enroll hash_secret get_enrollment_token_by_hash
handle_agent_enroll-enrolled ext token public_key none now s t e u g = absurd (cc)
handle_agent_enroll-enrolled ext token public_key (some body_host) now s t e u g =
    let h = ext.sha256_base64_url (get_or token "") in
    elim (Reply-cases (parse_agent_host_metadata body_host)) [
      | inl (failure, bad) ↦ absurd (let x = rw (bad, handle_agent_enroll) at g in cc)
      | inr (found, parsed) ↦
          elim (Bool-cases (not (is_given token) || not (is_given public_key))) [
            | inl bad ↦ absurd (let x = rw (parsed, bad, handle_agent_enroll) at g in cc)
            | inr given ↦ elim (Bool-cases (ext.is_ed25519_public_key (get_or public_key ""))) [
              | inr bad ↦ absurd (let x = rw (parsed, given, bad, handle_agent_enroll) at g in cc)
              | inl key ↦
                  elim (Option-cases (find_hash token_table h s.store.agent_enrollment_tokens)) [
                    | inl bad ↦
                        absurd
                          (let x = rw (parsed, given, key, bad, handle_agent_enroll) at g in cc)
                    | inr (row, held) ↦
                        elim (Bool-cases (is_some row.used_at || ltb row.expires_at now)) [
                          | inl bad ↦ absurd (
                              let x =
                                rw (parsed, given, key, held, bad, handle_agent_enroll) at g in
                              cc)
                          | inr live ↦
                              let x =
                                rw (parsed, given, key, held, live, handle_agent_enroll) at g in
                              let marked =
                                enroll_agent-marked row (get_or public_key "") found now s e
                                  (ap (λ r. r.0) x) in
                              let same : (enroll_agent row (get_or public_key "") found now s).1
                                  ≡ t =
                                ap (λ r. r.1) x in
                              let row_hash =
                                find_hash-hash token_table h s.store.agent_enrollment_tokens row
                                  held in
                              let (v, unique, l) =
                                mark_used-some token_table h now s.store.agent_enrollment_tokens
                                  t.store.agent_enrollment_tokens u
                                  (rw row_hash at (
                                    marked
                                    ∙ ap (λ z. some z.store.agent_enrollment_tokens) same)) in
                              (
                                row,
                                held,
                                ground (arith, live),
                                ground (arith, live),
                                key,
                                v,
                                unique,
                                l,
                              )
                        ]
                  ]
            ]
          ]
    ]

-- An enrolment token is good for one enrolment: after one in a state that the steps reach from a new
-- control plane, and after any further steps, every request with the same token throws, whatever key
-- and host it brings.
pub handle_agent_enroll-once :
    (ext : External) (config : RemoteConfig) (token key other_key : Option String)
    (host other_host : Option AgentHostMetadata) (now later : ℕ) (s t u : ControlPlane)
    (e : Enrolled)
    → Steps ext config new_control_plane s
    → handle_agent_enroll ext token key host now s ≡ (returned e, t)
    → Steps ext config t u
    → (failure : Failure) × ((handle_agent_enroll ext token other_key other_host later u).0
        ≡ thrown failure)
handle_agent_enroll-once ext config token key other_key host other_host now later s t u e reached g
      steps =
    let h = ext.sha256_base64_url (get_or token "") in
    let unique = (reached-UniqueHash ext config s reached).1 in
    let (row, held, fresh, live, ed, v, kept, l) =
      handle_agent_enroll-enrolled ext token key host now s t e unique g in
    let used : ledger token_table t.store.agent_enrollment_tokens h ≡ spent =
      l h ∙ rw (eq_refl h) refl in
    let (still_unique, still) =
      later-spent token_table h _ _ kept used (Steps-Evolves ext config t u steps).1 in
    let again = handle_agent_enroll ext token other_key other_host later u in
    elim (Reply-cases again.0) [
      | inl (failure, f) ↦ (failure, f)
      | inr (other, f) ↦
          let (row, held, fresh, live, ed, v, kept, l) =
            handle_agent_enroll-enrolled ext token other_key other_host later u again.1 other
              still_unique (ap (λ r. (r, again.1)) f) in
          absurd (let w = rw still at v in cc)
    ]
