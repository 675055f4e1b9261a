-- ===== src/Remote/ControlPlane/RequestTests.antt =====
-- The theorems on the OAuth flow and the API of src/remote/control-plane.ts at concrete requests.
use oaslananka_lab_mcp_ssh_t.Remote.ControlPlane.Stories.{
  with_box, policy_request, viewer_tokens, ada_row, client, known_user, ext, config, ada, query,
  registered, logged_in, form, exchanged, grant, draws,
}
use oaslananka_lab_mcp_ssh_t.Remote.ControlPlane.Steps.{registers, authorizes, done, next, Steps}
use oaslananka_lab_mcp_ssh_t.Remote.Store.Types.{
  warn, RemotePrincipal, OAuthAuthorizationCode, returned, thrown, Failure,
}
use oaslananka_lab_mcp_ssh_t.Remote.Scopes.{
  capabilities_of, add_capabilities, capabilities_from_scopes, parse_scopes, has_capability,
}
use oaslananka_lab_mcp_ssh_t.Remote.ControlPlane.Token.{
  user_from_id, redeem_code, pkce_challenge, after_prefix, handle_token,
}
use oaslananka_lab_mcp_ssh_t.Remote.ControlPlane.State.{
  ControlPlane, hash_secret, audit, new_control_plane,
}
use oaslananka_lab_mcp_ssh_t.Remote.ControlPlane.Login.{
  handle_authorize-IsValidQuery, IsSent, IsValidQuery,
}
use oaslananka_lab_mcp_ssh_t.Remote.Store.Tables.{
  upsert_user, mark_authorization_code_used, insert_authorization_code, get_user_by_github_id,
  insert_client, count_oauth_clients, code_table, get_client, get_authorization_code_by_hash,
}
use oaslananka_lab_mcp_ssh_t.Remote.ControlPlane.Once.{handle_token-once}
use oaslananka_lab_mcp_ssh_t.Remote.ControlPlane.OAuth.{
  wanted_of, upsert_github_user, issue_authorization_code, is_github_user_allowed, glue,
  finish_login, begin_login, scope_list, is_safe_redirect_uri, handle_register,
  validate_authorize_params, handle_authorize, to_client,
}
use oaslananka_lab_mcp_ssh_t.Remote.Store.Rows.{update_where, find}
use oaslananka_lab_mcp_ssh_t.StringMap.{set}
use oaslananka_lab_mcp_ssh_t.Remote.ControlPlane.Token.Granted.{handle_token-granted, IsRedeemable}
use oaslananka_lab_mcp_ssh_t.Remote.Store.Redeem.{
  update_unused, mark_used, find_hash, has_row_id, insert_row, spent, assign, UniqueHash, unspent,
  ledger,
}
use oaslananka_lab_mcp_ssh_t.Remote.Store.Records.{insert_audit}
use oaslananka_lab_mcp_ssh_t.Text.{codes, text_eq, is_space}
use oaslananka_lab_mcp_ssh_t.HostKeys.KnownHosts.{split_on, words}
use oaslananka_lab_mcp_ssh_t.Remote.ControlPlane.Token.Exchange.{
  issue_authorization_code-handle_token, exchange_form,
}
use oaslananka_lab_mcp_ssh_t.Remote.ControlPlane.Api.{
  principal_from_payload, split_string, bearer_of, extract_bearer_token, verify_access_token,
  handle_api,
}
use oaslananka_lab_mcp_ssh_t.Remote.ControlPlane.ReadOnly.{handle_api-read_only}
use oaslananka_lab_mcp_ssh_t.Policy.Engine.{unique_from}
use oaslananka_lab_mcp_ssh_t.Prelude.{
  String, ◌≡◌, refl, sym, ap, ◌⊎◌, Bool, false, Option, none, some, [], ◌∷◌, arith, keep,
}

-- The runs of the OAuth flow.
oauth_runs :
    (handle_token ext config form 20 logged_in ≡ (returned grant, exchanged))
    × UniqueHash code_table logged_in.store.oauth_authorization_codes
    × (handle_authorize ext config (some ada) query "tx" "secret" "code" 10 registered
        ≡ (returned (to_client "https://chat/cb" "secret" "st"), logged_in))
    × (issue_authorization_code ext config
          (wanted_of config query 10)
          "github:1"
          "secret"
          "code"
          10
          known_user
        ≡ (returned "secret", logged_in))
    × (get_client "cli" known_user.store ≡ some client)
    × (user_from_id "github:1" known_user.store ≡ returned ada_row)
    × (scope_list (codes "hosts:read") ≡ returned (codes "hosts:read" ∷ []))
unfolding parse_scopes handle_token get_client find handle_authorize validate_authorize_params
    handle_register is_safe_redirect_uri count_oauth_clients insert_client audit insert_audit
    scope_list words keep is_space text_eq begin_login split_on finish_login glue
    is_github_user_allowed issue_authorization_code upsert_github_user hash_secret after_prefix
    pkce_challenge redeem_code user_from_id find_hash has_row_id insert_row mark_used update_unused
    update_where get_authorization_code_by_hash get_user_by_github_id insert_authorization_code
    mark_authorization_code_used upsert_user set
oauth_runs = (refl, (refl, tt), refl, refl, refl, refl, refl)

reached_login : Steps ext config new_control_plane logged_in
reached_login =
    next (next done (registers ("https://chat/cb" ∷ []) none "row" "cli" 0))
      (authorizes (some ada) query "tx" "secret" "code" 10)

handle_token-once_example :
    (failure : Failure) × ((handle_token ext config form 30 exchanged).0 ≡ thrown failure)
handle_token-once_example =
    handle_token-once ext config form form 20 30 logged_in exchanged exchanged grant reached_login
      oauth_runs.0 done refl

handle_token-granted_example :
    (row : OAuthAuthorizationCode) × (get_authorization_code_by_hash "secret" logged_in.store
      ≡ some row)
    × IsRedeemable ext form 20 row
    × (ledger code_table logged_in.store.oauth_authorization_codes "secret" ≡ unspent)
    × UniqueHash code_table exchanged.store.oauth_authorization_codes
    × ((k : String)
        → ledger code_table exchanged.store.oauth_authorization_codes k
          ≡ assign "secret" spent (ledger code_table logged_in.store.oauth_authorization_codes) k)
handle_token-granted_example =
    handle_token-granted ext config form 20 logged_in exchanged grant oauth_runs.1 oauth_runs.0

handle_authorize-IsValidQuery_example :
    IsValidQuery ext config query registered.store
    × IsSent config (some ada) query (to_client "https://chat/cb" "secret" "st")
handle_authorize-IsValidQuery_example =
    handle_authorize-IsValidQuery ext config (some ada) query "tx" "secret" "code" 10 registered
      logged_in (to_client "https://chat/cb" "secret" "st") oauth_runs.2

issue_authorization_code-handle_token_example :
    (u : ControlPlane) × (handle_token ext config
        (exchange_form (wanted_of config query 10) "secret" "verifier")
        20
        logged_in
      ≡ (
        returned (record { user = ada_row; scopes = codes "hosts:read" ∷ []; expires_in = 900 }),
        u,
      ))
unfolding upsert_github_user is_github_user_allowed upsert_user handle_register is_safe_redirect_uri
    count_oauth_clients insert_client audit insert_audit
issue_authorization_code-handle_token_example =
    issue_authorization_code-handle_token ext config (wanted_of config query 10) "github:1" "secret"
      "code" "verifier" 10 20 known_user logged_in client ada_row (codes "hosts:read" ∷ []) tt
      oauth_runs.3 oauth_runs.4 oauth_runs.5 oauth_runs.6 refl (λ e. cc) refl (omega arith)

viewer_denied :
    (p : RemotePrincipal)
    → verify_access_token ext viewer_tokens config (some "Bearer viewer") with_box ≡ some p
    → has_capability p.capabilities (codes "agents.admin") ≡ false
unfolding verify_access_token extract_bearer_token bearer_of split_string principal_from_payload
    words split_on keep is_space text_eq has_capability capabilities_from_scopes add_capabilities
    capabilities_of unique_from
viewer_denied p e =
    let seen : Option RemotePrincipal → Bool = λ o. elim o [
      | none ↦ false
      | some q ↦ has_capability q.capabilities (codes "agents.admin")
    ] in
    ap seen (sym e)

handle_api-read_only_example :
    ((handle_api ext viewer_tokens config policy_request draws 60 with_box).1 ≡ with_box)
    ⊎ ((verify_access_token ext viewer_tokens config (some "Bearer viewer") with_box ≡ none)
        × ((handle_api ext viewer_tokens config policy_request draws 60 with_box).1
            ≡ audit none none none "token_validation_failure" warn 60 with_box))
handle_api-read_only_example =
    handle_api-read_only ext viewer_tokens config policy_request draws 60 with_box refl
      viewer_denied
