-- ===== src/Remote/ControlPlane/Login.antt =====
-- Where the authorize request of src/remote/control-plane.ts sends a browser.
use oaslananka_lab_mcp_ssh_t.Remote.ControlPlane.OAuth.{
  begin_login, handle_authorize, issue_authorization_code, is_github_user_allowed, to_client,
  wanted_of, to_github, Redirect, upsert_github_user, AuthorizeQuery, finish_login,
  validate_authorize_params, is_safe_redirect_uri,
}
use oaslananka_lab_mcp_ssh_t.Remote.ControlPlane.State.{
  has_string, ControlPlane, RemoteConfig, External,
}
use oaslananka_lab_mcp_ssh_t.Remote.Store.Types.{Reply-cases, returned, OAuthClient, GitHubUser}
use oaslananka_lab_mcp_ssh_t.Remote.Store.Tables.{get_client, RemoteStore}
use oaslananka_lab_mcp_ssh_t.Text.{Text}
use oaslananka_lab_mcp_ssh_t.Prelude.{
  ℕ, String, ◌≡◌, refl, ap, subst, ◌≢◌, ◌⊎◌, inl, inr, true, not, ◌||◌, Option, none, some, arith,
  ◌==◌, eq_iff, Bool-cases, Option-cases, get_or,
}

-- An https URL, or an http URL of the local host.
abbrev IsSafeUrl : External → String → Type 0
IsSafeUrl ext uri =
    (protocol : String) × (hostname : String) × (ext.parse_url uri ≡ some (protocol, hostname))
    × ((protocol ≡ "https:")
        ⊎ ((protocol ≡ "http:")
            × ((hostname ≡ "localhost") ⊎ (hostname ≡ "127.0.0.1") ⊎ (hostname ≡ "::1"))))

is_safe_redirect_uri-IsSafeUrl :
    (ext : External) (uri : String) → is_safe_redirect_uri ext uri ≡ true → IsSafeUrl ext uri
unfolding is_safe_redirect_uri
is_safe_redirect_uri-IsSafeUrl ext uri e = elim (Option-cases (ext.parse_url uri)) [
  | inl bad ↦ absurd (let g = rw (bad, is_safe_redirect_uri) at e in cc)
  | inr ((protocol, hostname), parsed) ↦
      let g = rw (parsed, is_safe_redirect_uri) at e in
      (
        protocol,
        hostname,
        parsed,
        ground (
          arith,
          g,
          eq_iff protocol "https:",
          eq_iff protocol "http:",
          eq_iff "localhost" hostname,
          eq_iff "127.0.0.1" hostname,
          eq_iff "::1" hostname,
        ),
      )
]

-- The request names a registered client and one of its redirect URIs, which is safe, and asks for a code
-- with a challenge by SHA-256 and for the resource of the server.
abbrev pub IsValidQuery : External → RemoteConfig → AuthorizeQuery → RemoteStore → Type 0
IsValidQuery ext config query store =
    (client : OAuthClient) × (get_client (get_or query.client_id "") store ≡ some client)
    × (has_string client.redirect_uris (get_or query.redirect_uri "") ≡ true)
    × IsSafeUrl ext (get_or query.redirect_uri "")
    × (get_or query.response_type "" ≡ "code")
    × (get_or query.code_challenge "" ≢ "")
    × (get_or query.code_challenge_method "" ≡ "S256")
    × (get_or query.resource config.mcp_resource_url ≡ config.mcp_resource_url)

validate_authorize_params-IsValidQuery :
    (ext : External) (config : RemoteConfig) (query : AuthorizeQuery) (store : RemoteStore)
    (scope : Text)
    → validate_authorize_params ext config store
        (get_or query.client_id "")
        (get_or query.redirect_uri "")
        (get_or query.response_type "")
        (get_or query.code_challenge "")
        (get_or query.code_challenge_method "")
        (get_or query.resource config.mcp_resource_url)
        scope
      ≡ none
    → IsValidQuery ext config query store
unfolding validate_authorize_params
validate_authorize_params-IsValidQuery ext config query store scope e =
    let uri = get_or query.redirect_uri "" in
    let kind = get_or query.response_type "" in
    let challenge = get_or query.code_challenge "" in
    let method = get_or query.code_challenge_method "" in
    let resource = get_or query.resource config.mcp_resource_url in
    elim (Option-cases (get_client (get_or query.client_id "") store)) [
      | inl bad ↦ absurd (let g = rw (bad, validate_authorize_params) at e in cc)
      | inr (client, known) ↦
          elim (Bool-cases
            (not (has_string client.redirect_uris uri) || not (is_safe_redirect_uri ext uri))) [
              | inl bad ↦ absurd (let g = rw (known, bad, validate_authorize_params) at e in cc)
              | inr listed ↦ elim (Bool-cases (kind == "code")) [
                | inr bad ↦
                    absurd (let g = rw (known, listed, bad, validate_authorize_params) at e in cc)
                | inl coded ↦ elim (Bool-cases (challenge == "" || not (method == "S256"))) [
                  | inl bad ↦
                      absurd (
                        let g = rw (known, listed, coded, bad, validate_authorize_params) at e in
                        cc)
                  | inr pkce ↦ elim (Bool-cases (resource == config.mcp_resource_url)) [
                    | inr bad ↦ absurd (
                        let g =
                          rw (known, listed, coded, pkce, bad, validate_authorize_params) at e in
                        cc)
                    | inl own ↦ (
                      client,
                      known,
                      ground (arith, listed),
                      is_safe_redirect_uri-IsSafeUrl ext uri (ground (arith, listed)),
                      ground (arith, coded, eq_iff kind "code"),
                      ground (arith, pkce, eq_iff challenge ""),
                      ground (arith, pkce, eq_iff method "S256"),
                      ground (arith, own, eq_iff resource config.mcp_resource_url),
                    )
                  ]
                ]
              ]
            ]
    ]

-- A redirect to a client goes to the URI of the request, for a user that is allowed.
abbrev pub IsSent : RemoteConfig → Option GitHubUser → AuthorizeQuery → Redirect → Type 0
IsSent config user query (to_github transaction_id) = user ≡ none
IsSent config user query (to_client uri fresh state) =
    (allowed : GitHubUser) × (user ≡ some allowed)
    × (is_github_user_allowed config allowed ≡ true)
    × (uri ≡ get_or query.redirect_uri "")

finish_login-IsSent :
    (ext : External) (config : RemoteConfig) (query : AuthorizeQuery) (user : GitHubUser)
    (code row_id : String) (now : ℕ) (s t : ControlPlane) (r : Redirect)
    → finish_login ext config (wanted_of config query now) user code row_id now s ≡ (returned r, t)
    → IsSent config (some user) query r
unfolding finish_login upsert_github_user
finish_login-IsSent ext config query user code row_id now s t r e =
    let wanted = wanted_of config query now in
    elim (Bool-cases (is_github_user_allowed config user)) [
      | inr bad ↦ absurd (let g = rw (bad, upsert_github_user, finish_login) at e in cc)
      | inl allowed ↦ elim (Reply-cases (upsert_github_user config user now s).0) [
        | inl (failure, bad) ↦ absurd (let g = rw (bad, finish_login) at e in cc)
        | inr (user_id, known) ↦
            elim (Reply-cases
              (issue_authorization_code ext config wanted user_id code row_id now
                (upsert_github_user config user now s).1).0) [
                  | inl (failure, bad) ↦ absurd (let g = rw (known, bad, finish_login) at e in cc)
                  | inr (fresh, issued) ↦
                      let g = rw (known, issued, finish_login) at e in
                      let same : to_client wanted.redirect_uri fresh wanted.state ≡ r =
                        ground (arith, ap (λ x. x.0) g) in
                      subst (IsSent config (some user) query) same (user, refl, allowed, refl)
                ]
      ]
    ]

begin_login-IsSent :
    (ext : External) (config : RemoteConfig) (query : AuthorizeQuery) (user : Option GitHubUser)
    (transaction_id code row_id : String) (now : ℕ) (s t : ControlPlane) (r : Redirect)
    → begin_login ext config user (wanted_of config query now) transaction_id code row_id now s
      ≡ (returned r, t)
    → IsSent config user query r
unfolding begin_login
begin_login-IsSent ext config query (some user) transaction_id code row_id now s t r e =
    finish_login-IsSent ext config query user code row_id now s t r e
begin_login-IsSent ext config query none transaction_id code row_id now s t r e =
    elim (Bool-cases
      (get_or config.github_client_id "" == "" || get_or config.github_client_secret "" == "")) [
        | inl bad ↦ absurd (let g = rw bad at e in cc)
        | inr ready ↦
            let g = rw ready at e in
            let same : to_github transaction_id ≡ r = ground (arith, ap (λ x. x.0) g) in
            subst (IsSent config none query) same refl
      ]

-- The authorize request is no open redirect: it sends a browser on only when it names a registered
-- client and a redirect URI of that client that is an https URL or an http URL of the local host, with
-- a challenge by SHA-256 and the resource of the server; it goes back to the client, with a code, only
-- to that URI and only for a user who is allowed.
pub handle_authorize-IsValidQuery :
    (ext : External) (config : RemoteConfig) (user : Option GitHubUser) (query : AuthorizeQuery)
    (transaction_id code row_id : String) (now : ℕ) (s t : ControlPlane) (r : Redirect)
    → handle_authorize ext config user query transaction_id code row_id now s ≡ (returned r, t)
    → IsValidQuery ext config query s.store × IsSent config user query r
unfolding handle_authorize
handle_authorize-IsValidQuery ext config user query transaction_id code row_id now s t r e =
    let wanted = wanted_of config query now in
    elim (Option-cases (
      validate_authorize_params ext config s.store wanted.client_id wanted.redirect_uri
        (get_or query.response_type "") wanted.code_challenge
        (get_or query.code_challenge_method "") wanted.resource wanted.scope)) [
          | inr (failure, bad) ↦ absurd (let g = rw (bad, handle_authorize) at e in cc)
          | inl valid ↦ (
            validate_authorize_params-IsValidQuery ext config query s.store wanted.scope valid,
            begin_login-IsSent ext config query user transaction_id code row_id now s t r
                (rw (valid, handle_authorize) at e),
          )
        ]
