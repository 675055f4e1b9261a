-- ===== src/Remote/ControlPlane/Token/Exchange.antt =====
-- A login of src/remote/control-plane.ts from the authorization code to the token.
use oaslananka_lab_mcp_ssh_t.Remote.ControlPlane.State.{
  hash_secret, ControlPlane, RemoteConfig, External, PendingAuthorize,
}
use oaslananka_lab_mcp_ssh_t.Remote.ControlPlane.Token.{
  TokenGrant, handle_token, user_from_id, pkce_challenge, TokenForm, redeem_code,
}
use oaslananka_lab_mcp_ssh_t.Remote.Store.Tables.{
  get_user_by_github_id, get_authorization_code_by_hash, get_client, mark_authorization_code_used,
  code_table, RemoteStore, insert_authorization_code,
}
use oaslananka_lab_mcp_ssh_t.Remote.Store.Types.{
  Reply, OAuthClient, UserRow, returned, OAuthAuthorizationCode,
}
use oaslananka_lab_mcp_ssh_t.Remote.Store.Redeem.{find_hash, UniqueHash, mark_used, insert_row}
use oaslananka_lab_mcp_ssh_t.Text.{Text}
use oaslananka_lab_mcp_ssh_t.Remote.ControlPlane.OAuth.{issue_authorization_code, scope_list}
use oaslananka_lab_mcp_ssh_t.Remote.Store.Spent.{
  mark_used-found, insert_row-UniqueHash, insert_row-found,
}
use oaslananka_lab_mcp_ssh_t.Prelude.{
  ℕ, ◌+◌, ◌*◌, ◌≤◌, String, ◌≡◌, refl, ap, subst, ◌≢◌, inl, inr, true, false, not, ◌||◌, none, some,
  List, arith, ◌==◌, eq_iff, ltb, Option-cases, is_some,
}

-- The request that exchanges the code of an authorize request.
abbrev pub exchange_form : PendingAuthorize → String → String → TokenForm
exchange_form pending code verifier = record {
  grant_type = some "authorization_code";
  client_id = some pending.client_id;
  code = some code;
  redirect_uri = some pending.redirect_uri;
  code_verifier = some verifier;
}

redeem_code-returned :
    (ext : External) (config : RemoteConfig) (row : OAuthAuthorizationCode) (verifier : String)
    (now : ℕ) (s : ControlPlane) (user : UserRow) (scopes : List Text) (store : RemoteStore)
    → row.used_at ≡ none
    → now ≤ row.expires_at
    → verifier ≢ ""
    → ext.sha256_base64_url verifier ≡ row.code_challenge
    → s.has_jwt_key_pair ≡ true
    → user_from_id row.user_id s.store ≡ returned user
    → scope_list row.scope ≡ returned scopes
    → mark_authorization_code_used row.code_hash now s.store ≡ returned store
    → redeem_code ext config row verifier now s ≡ (
      returned
          (record { user = user; scopes = scopes; expires_in = config.access_token_ttl_seconds }),
      record s { store = store },
    )
unfolding redeem_code pkce_challenge
redeem_code-returned ext config row verifier now s user scopes store fresh live given answer ready
      found known marked =
    let live : (is_some row.used_at || ltb row.expires_at now) ≡ false = ground (arith, fresh) in
    let proof : (verifier == "" || not (ext.sha256_base64_url verifier == row.code_challenge))
        ≡ false =
      ground
        (arith, eq_iff verifier "", eq_iff (ext.sha256_base64_url verifier) row.code_challenge) in
    rw (live, proof, found, known, marked, ready) refl

-- The row that `issueAuthorizationCode` inserts.
abbrev pub new_row :
    External
    → RemoteConfig
    → PendingAuthorize
    → String
    → String
    → String
    → ℕ
    → OAuthAuthorizationCode
new_row ext config pending user_id code row_id now = record {
  id = row_id;
  code_hash = ext.sha256_base64_url code;
  client_id = pending.client_id;
  user_id = user_id;
  redirect_uri = pending.redirect_uri;
  code_challenge = pending.code_challenge;
  code_challenge_method = "S256";
  resource = pending.resource;
  scope = pending.scope;
  expires_at = now + config.auth_code_ttl_seconds * 1000;
  used_at = none;
  created_at = now;
}

issued-store :
    (ext : External) (config : RemoteConfig) (pending : PendingAuthorize)
    (user_id code row_id : String) (now : ℕ) (s t : ControlPlane)
    → issue_authorization_code ext config pending user_id code row_id now s ≡ (returned code, t)
    → (rows : List OAuthAuthorizationCode) × (insert_row code_table
          (new_row ext config pending user_id code row_id now)
          s.store.oauth_authorization_codes
        ≡ some rows)
      × (record s { store = record s.store { oauth_authorization_codes = rows } } ≡ t)
unfolding issue_authorization_code insert_authorization_code hash_secret
issued-store ext config pending user_id code row_id now s t e =
    elim (Option-cases (
      insert_row code_table (new_row ext config pending user_id code row_id now)
        s.store.oauth_authorization_codes)) [
          | inl bad ↦
              absurd
                (let g = rw (bad, insert_authorization_code, issue_authorization_code) at e in cc)
          | inr (rows, ok) ↦
              let g = rw (ok, insert_authorization_code, issue_authorization_code) at e in
              (rows, ok, ap (λ r. r.1) g)
        ]

exchange :
    (ext : External) (config : RemoteConfig) (pending : PendingAuthorize) (code verifier : String)
    (later : ℕ) (t : ControlPlane) (row : OAuthAuthorizationCode) (client : OAuthClient)
    (r : Reply TokenGrant × ControlPlane)
    → get_client pending.client_id t.store ≡ some client
    → get_authorization_code_by_hash (ext.sha256_base64_url code) t.store ≡ some row
    → row.client_id ≡ pending.client_id
    → row.redirect_uri ≡ pending.redirect_uri
    → redeem_code ext config row verifier later t ≡ r
    → handle_token ext config (exchange_form pending code verifier) later t ≡ r
unfolding handle_token hash_secret
exchange ext config pending code verifier later t row client r known found c d e =
    let own : (not (row.client_id == pending.client_id)
          || not (row.redirect_uri == pending.redirect_uri))
        ≡ false =
      ground (
        arith,
        eq_iff row.client_id pending.client_id,
        eq_iff row.redirect_uri pending.redirect_uri,
      ) in
    rw (known, found) (rw own e)

marked-returned :
    (h : String) (now : ℕ) (s : RemoteStore) (rows : List OAuthAuthorizationCode)
    → mark_used code_table h now s.oauth_authorization_codes ≡ some rows
    → mark_authorization_code_used h now s
      ≡ returned (record s { oauth_authorization_codes = rows })
unfolding mark_authorization_code_used
marked-returned h now s rows e = rw (e, mark_authorization_code_used) refl

-- A login ends in a token: the code that was issued for an authorize request is exchanged, before it
-- expires, by a request with the client, the redirect URI and a verifier whose SHA-256 is the
-- challenge of the request. The client is registered, the user stands in the store, the key pair is
-- loaded and the scope is valid; the grant names that user and those scopes.
pub issue_authorization_code-handle_token :
    (ext : External) (config : RemoteConfig) (pending : PendingAuthorize)
    (user_id code row_id verifier : String) (now later : ℕ) (s t : ControlPlane)
    (client : OAuthClient) (user : UserRow) (scopes : List Text)
    → UniqueHash code_table s.store.oauth_authorization_codes
    → issue_authorization_code ext config pending user_id code row_id now s ≡ (returned code, t)
    → get_client pending.client_id s.store ≡ some client
    → user_from_id user_id s.store ≡ returned user
    → scope_list pending.scope ≡ returned scopes
    → s.has_jwt_key_pair ≡ true
    → verifier ≢ ""
    → ext.sha256_base64_url verifier ≡ pending.code_challenge
    → later ≤ now + config.auth_code_ttl_seconds * 1000
    → (u : ControlPlane) × (handle_token ext config (exchange_form pending code verifier) later t
        ≡ (
          returned (record {
            user = user;
            scopes = scopes;
            expires_in = config.access_token_ttl_seconds;
          }),
          u,
        ))
unfolding get_authorization_code_by_hash get_client user_from_id get_user_by_github_id
issue_authorization_code-handle_token ext config pending user_id code row_id verifier now later s t
      client user scopes unique e known found valid ready given answer live =
    let row = new_row ext config pending user_id code row_id now in
    let (rows, inserted, shape) = issued-store ext config pending user_id code row_id now s t e in
    let held : find_hash code_table row.code_hash rows ≡ some row =
      insert_row-found code_table row s.store.oauth_authorization_codes rows inserted in
    let unique_rows : UniqueHash code_table rows =
      insert_row-UniqueHash code_table row s.store.oauth_authorization_codes rows unique inserted in
    let (marked, done) =
      mark_used-found code_table row.code_hash later rows row unique_rows held refl in
    let after = record s { store = record s.store { oauth_authorization_codes = rows } } in
    let grant =
      redeem_code-returned ext config (record row { code_challenge_method = "S256" }) verifier later
        after user scopes (record s.store { oauth_authorization_codes = marked }) refl live given
        answer ready found valid (marked-returned row.code_hash later after.store marked done) in
    (
      record s { store = record s.store { oauth_authorization_codes = marked } },
      subst
          (λ z. handle_token ext config (exchange_form pending code verifier) later z ≡ (
            returned (record {
              user = user;
              scopes = scopes;
              expires_in = config.access_token_ttl_seconds;
            }),
            record s { store = record s.store { oauth_authorization_codes = marked } },
          ))
          shape
          (exchange ext config pending code verifier later after row client _ known (rw held refl)
            refl refl grant),
    )
