-- ===== src/Remote/ControlPlane/OAuth.antt =====
-- The OAuth flow of src/remote/control-plane.ts up to the authorization code: the registration of a
-- client, the authorize request and the return from GitHub. What is drawn at random, the clock and
-- GitHub's answer are arguments.
use oaslananka_lab_mcp_ssh_t.Remote.ControlPlane.State.{
  audit, hash_secret, PendingAuthorize, has_string, RemoteConfig, ControlPlane, External,
}
use oaslananka_lab_mcp_ssh_t.Text.{codes, Text}
use oaslananka_lab_mcp_ssh_t.Remote.Store.Types.{
  info, pkce_validation_failed, invalid_scope, invalid_token, forbidden, invalid_redirect_uri,
  invalid_client, failed, returned, Failure, OAuthClient, thrown, GitHubUser, Reply,
}
use oaslananka_lab_mcp_ssh_t.Remote.Store.Tables.{
  upsert_user, insert_client, get_user_by_github_id, count_oauth_clients, get_client,
  insert_authorization_code, RemoteStore,
}
use oaslananka_lab_mcp_ssh_t.Remote.Scopes.{parse_scopes, remote_scopes, includes}
use oaslananka_lab_mcp_ssh_t.StringMap.{set, delete, get}
use oaslananka_lab_mcp_ssh_t.HostKeys.KnownHosts.{words}
use oaslananka_lab_mcp_ssh_t.Prelude.{
  ℕ, ◌+◌, ◌*◌, String, Bool, true, false, not, ◌&&◌, ◌||◌, Option, none, some, List, [], ◌∷◌, ◌==◌,
  ltb, leb, eqb, if◌then◌else◌, get_or, length, any,
}

unfoldable pub is_safe_redirect_uri : External → String → Bool
is_safe_redirect_uri ext uri = elim (ext.parse_url uri) [
  | none ↦ false
  | some (protocol, hostname) ↦
      if protocol == "https:"
      then true
      else protocol == "http:" && has_string ("localhost" ∷ "127.0.0.1" ∷ "::1" ∷ []) hostname
]

abbrev default_scopes : List Text
default_scopes =
    codes "hosts:read" ∷ codes "agents:read" ∷ codes "status:read" ∷ codes "logs:read" ∷ []

unfoldable pub scope_list : Text → Reply (List Text)
scope_list scope =
    if any (λ e. not (includes remote_scopes e)) (words scope)
    then thrown (failed invalid_scope 400)
    else returned
        (elim (parse_scopes (some scope)) [ [] ↦ default_scopes | s ∷ scopes ↦ s ∷ scopes ])

unfoldable pub handle_register :
    External
    → RemoteConfig
    → List String
    → Option String
    → String
    → String
    → ℕ
    → ControlPlane
    → Reply OAuthClient × ControlPlane
handle_register ext config redirect_uris client_name row_id client_id now s =
    if eqb (length redirect_uris) 0 || any (λ uri. not (is_safe_redirect_uri ext uri)) redirect_uris
    then (thrown (failed invalid_redirect_uri 400), s)
    else if leb config.max_oauth_clients (count_oauth_clients s.store)
    then (thrown (failed forbidden 429), s)
    else let client : OAuthClient = record {
      id = row_id;
      client_id = client_id;
      client_name = get_or client_name "ChatGPT Connector";
      redirect_uris = redirect_uris;
      grant_types = "authorization_code" ∷ [];
      response_types = "code" ∷ [];
      token_endpoint_auth_method = "none";
      created_at = now;
    } in
      elim (insert_client client s.store) [
        | thrown error ↦ (thrown error, s)
        | returned store ↦ (
          returned client,
          audit none none none "oauth_client_registered" info now (record s { store = store }),
        )
      ]

-- The query of the request; none is a parameter that is not there.
pub record AuthorizeQuery : Type 0 where
  pub client_id : Option String
  pub redirect_uri : Option String
  pub response_type : Option String
  pub code_challenge : Option String
  pub code_challenge_method : Option String
  pub state : Option String
  pub resource : Option String
  pub scope : Option Text

-- `validateAuthorizeParams`; none when nothing is thrown.
unfoldable pub validate_authorize_params :
    External
    → RemoteConfig
    → RemoteStore
    → String
    → String
    → String
    → String
    → String
    → String
    → Text
    → Option Failure
validate_authorize_params ext config store client_id redirect_uri response_type code_challenge
      code_challenge_method resource scope =
    elim (get_client client_id store) [
      | none ↦ some (failed invalid_client 400)
      | some client ↦
          if not (has_string client.redirect_uris redirect_uri)
            || not (is_safe_redirect_uri ext redirect_uri)
          then some (failed invalid_redirect_uri 400)
          else if not (response_type == "code")
          then some (failed invalid_client 400)
          else if code_challenge == "" || not (code_challenge_method == "S256")
          then some (failed pkce_validation_failed 400)
          else if not (resource == config.mcp_resource_url)
          then some (failed invalid_token 400)
          else elim (scope_list scope) [ thrown error ↦ some error | returned scopes ↦ none ]
    ]

unfoldable pub is_github_user_allowed : RemoteConfig → GitHubUser → Bool
is_github_user_allowed config user =
    config.allow_all_users
    || has_string config.allowed_github_ids user.id
    || has_string config.allowed_github_logins user.login

-- ``${prefix}${text}``
unfoldable pub glue : String → String → String
glue String.[] text = text
glue (String.◌∷◌ c prefix) text = String.◌∷◌ c (glue prefix text)

-- The internal id of the user.
unfoldable pub upsert_github_user :
    RemoteConfig → GitHubUser → ℕ → ControlPlane → Reply String × ControlPlane
upsert_github_user config user now s =
    if not (is_github_user_allowed config user)
    then (thrown (failed forbidden 400), s)
    else let internal_id : String = elim (get_user_by_github_id user.id s.store) [
      | none ↦ glue "github:" user.id
      | some row ↦ row.id
    ] in
      elim (upsert_user user internal_id now s.store) [
        | thrown error ↦ (thrown error, s)
        | returned store ↦ (
          returned internal_id,
          audit (some internal_id) none none "user_login" info now (record s { store = store }),
        )
      ]

unfoldable pub issue_authorization_code :
    External
    → RemoteConfig
    → PendingAuthorize
    → String
    → String
    → String
    → ℕ
    → ControlPlane
    → Reply String × ControlPlane
issue_authorization_code ext config pending user_id code row_id now s =
    elim (insert_authorization_code
      (record {
        id = row_id;
        code_hash = hash_secret ext code;
        client_id = pending.client_id;
        user_id = user_id;
        redirect_uri = pending.redirect_uri;
        code_challenge = pending.code_challenge;
        code_challenge_method = "S256";
        resource = pending.resource;
        scope = pending.scope;
        expires_at = now + config.auth_code_ttl_seconds * 1000;
        used_at = none;
        created_at = now;
      })
      s.store) [
        | thrown error ↦ (thrown error, s)
        | returned store ↦ (returned code, record s { store = store })
      ]

-- Where the browser is sent: back to the client, with a code and the state unless it is empty, or to
-- GitHub with the id of the transaction.
pub data Redirect : Type 0 where
  to_client : String → String → String → Redirect
  to_github : String → Redirect

unfoldable pub finish_login :
    External
    → RemoteConfig
    → PendingAuthorize
    → GitHubUser
    → String
    → String
    → ℕ
    → ControlPlane
    → Reply Redirect × ControlPlane
finish_login ext config pending user code row_id now s =
    let (logged_in, t) = upsert_github_user config user now s in
    elim logged_in [
      | thrown error ↦ (thrown error, t)
      | returned user_id ↦
          let (issued, u) = issue_authorization_code ext config pending user_id code row_id now t in
          elim issued [
            | thrown error ↦ (thrown error, u)
            | returned fresh ↦ (returned (to_client pending.redirect_uri fresh pending.state), u)
          ]
    ]

-- What the request asks for, with the defaults of the parameters that are not there.
abbrev pub wanted_of : RemoteConfig → AuthorizeQuery → ℕ → PendingAuthorize
wanted_of config query now = record {
  client_id = get_or query.client_id "";
  redirect_uri = get_or query.redirect_uri "";
  code_challenge = get_or query.code_challenge "";
  resource = get_or query.resource config.mcp_resource_url;
  scope = get_or query.scope (codes "hosts:read agents:read status:read logs:read");
  state = get_or query.state "";
  expires_at = now + config.auth_code_ttl_seconds * 1000;
}

-- A valid request: the test user logs in at once, any other is sent to GitHub.
unfoldable pub begin_login :
    External
    → RemoteConfig
    → Option GitHubUser
    → PendingAuthorize
    → String
    → String
    → String
    → ℕ
    → ControlPlane
    → Reply Redirect × ControlPlane
begin_login ext config (some user) wanted transaction_id code row_id now s =
    finish_login ext config wanted user code row_id now s
begin_login ext config none wanted transaction_id code row_id now s =
    if get_or config.github_client_id "" == "" || get_or config.github_client_secret "" == ""
    then (thrown (failed forbidden 503), s)
    else (
      returned (to_github transaction_id),
      record s { authorize_transactions = set transaction_id wanted s.authorize_transactions },
    )

unfoldable pub handle_authorize :
    External
    → RemoteConfig
    → Option GitHubUser
    → AuthorizeQuery
    → String
    → String
    → String
    → ℕ
    → ControlPlane
    → Reply Redirect × ControlPlane
handle_authorize ext config test_user query transaction_id code row_id now s =
    let wanted = wanted_of config query now in
    elim (validate_authorize_params ext config s.store wanted.client_id wanted.redirect_uri
      (get_or query.response_type "") wanted.code_challenge (get_or query.code_challenge_method "")
      wanted.resource wanted.scope) [
        | some failure ↦ (thrown failure, s)
        | none ↦ begin_login ext config test_user wanted transaction_id code row_id now s
      ]

-- `handleGitHubCallback` up to its call of GitHub: the transaction is deleted, whatever the answer.
unfoldable pub callback_begin :
    String → String → ℕ → ControlPlane → Reply PendingAuthorize × ControlPlane
callback_begin code state now s =
    let found = get state s.authorize_transactions in
    let t = record s { authorize_transactions = delete state s.authorize_transactions } in
    elim found [
      | none ↦ (thrown (failed invalid_token 400), t)
      | some pending ↦
          if code == "" || ltb pending.expires_at now
          then (thrown (failed invalid_token 400), t)
          else (returned pending, t)
    ]

-- The rest of it, on the user that GitHub reports or the error of the call.
unfoldable pub callback_finish :
    External
    → RemoteConfig
    → PendingAuthorize
    → Reply GitHubUser
    → String
    → String
    → ℕ
    → ControlPlane
    → Reply Redirect × ControlPlane
callback_finish ext config pending (thrown error) code row_id now s = (thrown error, s)
callback_finish ext config pending (returned user) code row_id now s =
    finish_login ext config pending user code row_id now s
