-- ===== src/Remote/ControlPlane/Token/Granted.antt =====
-- When the token endpoint of src/remote/control-plane.ts grants a token.
use oaslananka_lab_mcp_ssh_t.Remote.ControlPlane.Token.{
  handle_token, user_from_id, TokenGrant, pkce_challenge, TokenForm, redeem_code,
}
use oaslananka_lab_mcp_ssh_t.Remote.ControlPlane.State.{
  hash_secret, ControlPlane, RemoteConfig, External,
}
use oaslananka_lab_mcp_ssh_t.Remote.Store.Types.{Reply-cases, returned, OAuthAuthorizationCode}
use oaslananka_lab_mcp_ssh_t.Remote.Store.Tables.{
  get_client, code_table, RemoteStore, get_authorization_code_by_hash, mark_authorization_code_used,
}
use oaslananka_lab_mcp_ssh_t.Remote.ControlPlane.OAuth.{scope_list}
use oaslananka_lab_mcp_ssh_t.Remote.Store.Redeem.{
  spent, assign, unspent, ledger, UniqueHash, mark_used, find_hash,
}
use oaslananka_lab_mcp_ssh_t.Remote.Store.Vouchers.{find_hash-hash}
use oaslananka_lab_mcp_ssh_t.Remote.Store.Spent.{mark_used-some}
use oaslananka_lab_mcp_ssh_t.Prelude.{
  ℕ, ◌≤◌, String, ◌≡◌, sym, ap, ◌∙◌, ◌≢◌, inl, inr, not, ◌||◌, none, some, arith, ◌==◌, eq_iff, ltb,
  Bool-cases, Option-cases, get_or, is_some,
}

-- What a grant rests on: a row of the table that has not been used and has not expired, issued for
-- the client and the redirect URI of the request, whose challenge the verifier answers.
abbrev pub IsRedeemable : External → TokenForm → ℕ → OAuthAuthorizationCode → Type 0
IsRedeemable ext form now row =
    (row.client_id ≡ get_or form.client_id "")
    × (row.redirect_uri ≡ get_or form.redirect_uri "")
    × (row.used_at ≡ none)
    × (now ≤ row.expires_at)
    × (get_or form.code_verifier "" ≢ "")
    × (ext.sha256_base64_url (get_or form.code_verifier "") ≡ row.code_challenge)

redeem_code-granted :
    (ext : External) (config : RemoteConfig) (row : OAuthAuthorizationCode) (verifier : String)
    (now : ℕ) (s t : ControlPlane) (grant : TokenGrant)
    → redeem_code ext config row verifier now s ≡ (returned grant, t)
    → (row.used_at ≡ none)
      × (now ≤ row.expires_at)
      × (verifier ≢ "")
      × (ext.sha256_base64_url verifier ≡ row.code_challenge)
      × (mark_authorization_code_used row.code_hash now s.store ≡ returned t.store)
unfolding redeem_code pkce_challenge
redeem_code-granted ext config row verifier now s t grant h =
    elim (Bool-cases (is_some row.used_at || ltb row.expires_at now)) [
      | inl bad ↦ absurd (cc)
      | inr live ↦
          elim (Bool-cases
            (verifier == "" || not (ext.sha256_base64_url verifier == row.code_challenge))) [
              | inl bad ↦ absurd (let g = rw (live, bad) at h in cc)
              | inr proof ↦ elim (Bool-cases s.has_jwt_key_pair) [
                | inr bad ↦ absurd (let g = rw (live, proof, bad) at h in cc)
                | inl ready ↦ elim (Reply-cases (user_from_id row.user_id s.store)) [
                  | inl (e, bad) ↦ absurd (let g = rw (live, proof, ready, bad) at h in cc)
                  | inr (user, found) ↦ elim (Reply-cases (scope_list row.scope)) [
                    | inl (e, bad) ↦ absurd (let g = rw (live, proof, ready, found, bad) at h in cc)
                    | inr (scopes, known) ↦
                        elim (Reply-cases
                          (mark_authorization_code_used row.code_hash now s.store)) [
                            | inl (e, bad) ↦
                                absurd
                                  (let g = rw (live, proof, ready, found, known, bad) at h in cc)
                            | inr (store, marked) ↦
                                let g = rw (live, proof, ready, found, known, marked) at h in
                                let same : store ≡ t.store = ap (λ r. r.1.store) g in
                                (
                                  ground (arith, live),
                                  ground (arith, live),
                                  ground (arith, proof, eq_iff verifier ""),
                                  ground (
                                    arith,
                                    proof,
                                    eq_iff (ext.sha256_base64_url verifier) row.code_challenge,
                                  ),
                                  marked ∙ ap returned same,
                                )
                          ]
                  ]
                ]
              ]
            ]
    ]

mark-returned :
    (h : String) (now : ℕ) (s t : RemoteStore)
    → mark_authorization_code_used h now s ≡ returned t
    → mark_used code_table h now s.oauth_authorization_codes ≡ some t.oauth_authorization_codes
unfolding mark_authorization_code_used
mark-returned h now s t e =
    elim (Option-cases (mark_used code_table h now s.oauth_authorization_codes)) [
      | inl bad ↦ absurd (let g = rw (bad, mark_authorization_code_used) at e in cc)
      | inr (rows, ok) ↦
          let g : returned (record s { oauth_authorization_codes = rows }) ≡ returned t =
            rw (ok, mark_authorization_code_used) at e in
          ok ∙ ap some (ground (arith, g))
    ]

found_row :
    (h : String) (s : RemoteStore) (row : OAuthAuthorizationCode)
    → get_authorization_code_by_hash h s ≡ some row
    → row.code_hash ≡ h
unfolding get_authorization_code_by_hash
found_row h s row e = elim (Option-cases (find_hash code_table h s.oauth_authorization_codes)) [
  | inl bad ↦ absurd (let g = rw bad at e in cc)
  | inr (a, ok) ↦
      let g : some (record a { code_challenge_method = "S256" }) ≡ some row = rw ok at e in
      let same : a.code_hash ≡ row.code_hash = ground (arith, g) in
      sym same ∙ find_hash-hash code_table h s.oauth_authorization_codes a ok
]

-- A token is granted only for an authorization code whose hash stands in the table, unused and not
-- expired, for the client and the redirect URI of the request and against a verifier whose SHA-256
-- is the challenge of the code; the grant leaves that code spent and every other code as it was.
-- The hashes of the table are unique, before and after.
pub handle_token-granted :
    (ext : External) (config : RemoteConfig) (form : TokenForm) (now : ℕ) (s t : ControlPlane)
    (grant : TokenGrant)
    → UniqueHash code_table s.store.oauth_authorization_codes
    → handle_token ext config form now s ≡ (returned grant, t)
    → let h = ext.sha256_base64_url (get_or form.code "") in
      (row : OAuthAuthorizationCode) × (get_authorization_code_by_hash h s.store ≡ some row)
      × IsRedeemable ext form now row
      × (ledger code_table s.store.oauth_authorization_codes h ≡ unspent)
      × UniqueHash code_table t.store.oauth_authorization_codes
      × ((k : String)
          → ledger code_table t.store.oauth_authorization_codes k
            ≡ assign h spent (ledger code_table s.store.oauth_authorization_codes) k)
unfolding handle_token hash_secret
handle_token-granted ext config form now s t grant u e =
    let h = ext.sha256_base64_url (get_or form.code "") in
    elim (Bool-cases (get_or form.grant_type "" == "authorization_code")) [
      | inr bad ↦ absurd (let g = rw bad at e in cc)
      | inl kind ↦ elim (Option-cases (get_client (get_or form.client_id "") s.store)) [
        | inl bad ↦ absurd (let g = rw (kind, bad) at e in cc)
        | inr (client, known) ↦ elim (Option-cases (get_authorization_code_by_hash h s.store)) [
          | inl bad ↦ absurd (let g = rw (kind, known, bad) at e in cc)
          | inr (row, found) ↦
              elim (Bool-cases (
                not (row.client_id == get_or form.client_id "")
                || not (row.redirect_uri == get_or form.redirect_uri ""))) [
                  | inl bad ↦ absurd (let g = rw (kind, known, found, bad) at e in cc)
                  | inr own ↦
                      let g = rw (kind, known, found, own) at e in
                      let (fresh, live, given, answer, marked) =
                        redeem_code-granted ext config row (get_or form.code_verifier "") now s t
                          grant g in
                      let ok = mark-returned row.code_hash now s.store t.store marked in
                      let (v, unique, l) =
                        mark_used-some code_table h now s.store.oauth_authorization_codes
                          t.store.oauth_authorization_codes u
                          (rw (found_row h s.store row found) at ok) in
                      (
                        row,
                        found,
                        (
                          ground (arith, own, eq_iff row.client_id (get_or form.client_id "")),
                          ground
                              (arith, own, eq_iff row.redirect_uri (get_or form.redirect_uri "")),
                          fresh,
                          live,
                          given,
                          answer,
                        ),
                        v,
                        unique,
                        l,
                      )
                ]
        ]
      ]
    ]
