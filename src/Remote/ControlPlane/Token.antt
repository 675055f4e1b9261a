-- ===== src/Remote/ControlPlane/Token.antt =====
-- The token endpoint of src/remote/control-plane.ts: an authorization code is exchanged for the
-- grant that `issueAccessToken` signs.
pub mod Granted
pub mod Exchange
use Prim.Native.Char.{code as char_code}
use oaslananka_lab_mcp_ssh_t.Remote.ControlPlane.State.{
  hash_secret, ControlPlane, RemoteConfig, External,
}
use oaslananka_lab_mcp_ssh_t.Remote.Store.Types.{
  raised, returned, pkce_validation_failed, invalid_token, unauthorized, invalid_client, failed,
  thrown, OAuthAuthorizationCode, Reply, UserRow,
}
use oaslananka_lab_mcp_ssh_t.Remote.Store.Tables.{
  mark_authorization_code_used, get_authorization_code_by_hash, get_user_by_github_id, get_client,
  RemoteStore,
}
use oaslananka_lab_mcp_ssh_t.Text.{Text}
use oaslananka_lab_mcp_ssh_t.Remote.ControlPlane.OAuth.{scope_list}
use oaslananka_lab_mcp_ssh_t.Prelude.{
  ℕ, String, not, ◌||◌, Option, none, some, List, ◌==◌, ltb, eqb, if◌then◌else◌, get_or, is_some,
}

-- The form of the request; none is a parameter that is not there.
pub record TokenForm : Type 0 where
  pub grant_type : Option String
  pub client_id : Option String
  pub code : Option String
  pub redirect_uri : Option String
  pub code_verifier : Option String

-- What the access token says.
pub record TokenGrant : Type 0 where
  pub user : UserRow
  pub scopes : List Text
  pub expires_in : ℕ

unfoldable pub pkce_challenge : External → String → String
pkce_challenge ext verifier = ext.sha256_base64_url verifier

-- The text after a prefix, when it starts with it.
unfoldable pub after_prefix : String → String → Option String
after_prefix String.[] text = some text
after_prefix (String.◌∷◌ c prefix) String.[] = none
after_prefix (String.◌∷◌ c prefix) (String.◌∷◌ d text) =
    let rest = after_prefix prefix text in if eqb (char_code c) (char_code d) then rest else none

unfoldable pub user_from_id : String → RemoteStore → Reply UserRow
user_from_id user_id store = elim (after_prefix "github:" user_id) [
  | none ↦ thrown (failed unauthorized 401)
  | some github_id ↦ elim (get_user_by_github_id github_id store) [
    | none ↦ thrown (failed unauthorized 401)
    | some user ↦ returned user
  ]
]

-- From the check of the code on.
unfoldable pub redeem_code :
    External
    → RemoteConfig
    → OAuthAuthorizationCode
    → String
    → ℕ
    → ControlPlane
    → Reply TokenGrant × ControlPlane
redeem_code ext config code_record verifier now s =
    if is_some code_record.used_at || ltb code_record.expires_at now
    then (thrown (failed invalid_token 400), s)
    else if verifier == "" || not (pkce_challenge ext verifier == code_record.code_challenge)
    then (thrown (failed pkce_validation_failed 400), s)
    else if not s.has_jwt_key_pair
    then (thrown raised, s)
    else elim (user_from_id code_record.user_id s.store) [
      | thrown error ↦ (thrown error, s)
      | returned user ↦ elim (scope_list code_record.scope) [
        | thrown error ↦ (thrown error, s)
        | returned scopes ↦ elim (mark_authorization_code_used code_record.code_hash now s.store) [
          | thrown error ↦ (thrown (failed invalid_token 400), s)
          | returned store ↦ (
            returned (record {
              user = user;
              scopes = scopes;
              expires_in = config.access_token_ttl_seconds;
            }),
            record s { store = store },
          )
        ]
      ]
    ]

unfoldable pub handle_token :
    External → RemoteConfig → TokenForm → ℕ → ControlPlane → Reply TokenGrant × ControlPlane
handle_token ext config form now s =
    if not (get_or form.grant_type "" == "authorization_code")
    then (thrown (failed invalid_client 400), s)
    else elim (get_client (get_or form.client_id "") s.store) [
      | none ↦ (thrown (failed invalid_client 400), s)
      | some client ↦
          elim (get_authorization_code_by_hash (hash_secret ext (get_or form.code "")) s.store) [
            | none ↦ (thrown (failed invalid_token 400), s)
            | some code_record ↦
                if not (code_record.client_id == get_or form.client_id "")
                  || not (code_record.redirect_uri == get_or form.redirect_uri "")
                then (thrown (failed invalid_token 400), s)
                else redeem_code ext config code_record (get_or form.code_verifier "") now s
          ]
    ]
