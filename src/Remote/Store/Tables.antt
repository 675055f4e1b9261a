-- ===== src/Remote/Store/Tables.antt =====
-- `RemoteStore` of src/remote/store.ts: one function per method. A method that inserts throws when a
-- unique column of its table has the value already. The primary keys of the audit events are drawn
-- at random and not modelled.
use oaslananka_lab_mcp_ssh_t.Remote.Store.Types.{
  invalid_token, failed, Failure, returned, AuditEvent, ActionRecord, AgentEnrollmentTokenRecord,
  raised, RemoteAgentRecord, thrown, OAuthAuthorizationCode, Reply, OAuthClient, GitHubUser,
  UserRow,
}
use oaslananka_lab_mcp_ssh_t.Remote.Store.Redeem.{insert_row, find_hash, Redeemable, mark_used}
use oaslananka_lab_mcp_ssh_t.Remote.Store.Rows.{find, update_where}
use oaslananka_lab_mcp_ssh_t.Prelude.{
  map_option, ℕ, String, refl, not, ◌&&◌, ◌||◌, Option, none, some, List, [], ◌∷◌, ◌++◌, ◌==◌,
  if◌then◌else◌, length, any,
}

pub record RemoteStore : Type 0 where
  pub users : List UserRow
  pub oauth_clients : List OAuthClient
  pub oauth_authorization_codes : List OAuthAuthorizationCode
  pub agents : List RemoteAgentRecord
  pub agent_enrollment_tokens : List AgentEnrollmentTokenRecord
  pub actions : List ActionRecord
  pub audit_events : List AuditEvent

-- `migrate`, on an empty database
abbrev pub empty_store : RemoteStore
empty_store = record {
  users = [];
  oauth_clients = [];
  oauth_authorization_codes = [];
  agents = [];
  agent_enrollment_tokens = [];
  actions = [];
  audit_events = [];
}

-- `INSERT … ON CONFLICT(github_id) DO UPDATE SET github_login = …, updated_at = …`
unfoldable pub upsert_user : GitHubUser → String → ℕ → RemoteStore → Reply RemoteStore
upsert_user user internal_id now s =
    if any (λ u. u.github_id == user.id) s.users
    then (if any (λ u. not (u.github_id == user.id) && u.github_login == user.login) s.users
        then thrown raised
        else returned (record s {
          users =
              update_where (λ u. u.github_id == user.id)
                (λ u. record u { github_login = user.login; updated_at = now }) s.users;
        }))
    else if any (λ u. u.id == internal_id || u.github_login == user.login) s.users
    then thrown raised
    else returned (record s {
      users =
          s.users
          ++ (record {
            id = internal_id;
            github_id = user.id;
            github_login = user.login;
            created_at = now;
            updated_at = now;
          }
              ∷ []);
    })

unfoldable pub get_user_by_github_id : String → RemoteStore → Option UserRow
get_user_by_github_id github_id s = find (λ u. u.github_id == github_id) s.users

unfoldable pub insert_client : OAuthClient → RemoteStore → Reply RemoteStore
insert_client client s =
    if any (λ c. c.id == client.id || c.client_id == client.client_id) s.oauth_clients
    then thrown raised
    else returned (record s { oauth_clients = s.oauth_clients ++ (client ∷ []) })

unfoldable pub get_client : String → RemoteStore → Option OAuthClient
get_client client_id s =
    map_option (λ (c : OAuthClient). record c { token_endpoint_auth_method = "none" })
      (find (λ c. c.client_id == client_id) s.oauth_clients)

unfoldable pub count_oauth_clients : RemoteStore → ℕ
count_oauth_clients s = length s.oauth_clients

-- The two tables of one-use secrets.
abbrev pub code_table : Redeemable OAuthAuthorizationCode
code_table = record {
  row_id = λ c. c.id;
  hash = λ c. c.code_hash;
  used = λ c. c.used_at;
  use_at = λ now c. record c { used_at = some now };
  row_id-use_at = λ now c. refl;
  hash-use_at = λ now c. refl;
  used-use_at = λ now c. refl;
}

abbrev pub token_table : Redeemable AgentEnrollmentTokenRecord
token_table = record {
  row_id = λ t. t.id;
  hash = λ t. t.token_hash;
  used = λ t. t.used_at;
  use_at = λ now t. record t { used_at = some now };
  row_id-use_at = λ now t. refl;
  hash-use_at = λ now t. refl;
  used-use_at = λ now t. refl;
}

unfoldable pub insert_authorization_code : OAuthAuthorizationCode → RemoteStore → Reply RemoteStore
insert_authorization_code code s = elim (insert_row code_table code s.oauth_authorization_codes) [
  | none ↦ thrown raised
  | some rows ↦ returned (record s { oauth_authorization_codes = rows })
]

unfoldable pub get_authorization_code_by_hash : String → RemoteStore → Option OAuthAuthorizationCode
get_authorization_code_by_hash code_hash s =
    map_option (λ (c : OAuthAuthorizationCode). record c { code_challenge_method = "S256" })
      (find_hash code_table code_hash s.oauth_authorization_codes)

-- `tokenUseConflict`
abbrev token_use_conflict : Failure
token_use_conflict = failed invalid_token 400

unfoldable pub mark_authorization_code_used : String → ℕ → RemoteStore → Reply RemoteStore
mark_authorization_code_used code_hash now s =
    elim (mark_used code_table code_hash now s.oauth_authorization_codes) [
      | none ↦ thrown token_use_conflict
      | some rows ↦ returned (record s { oauth_authorization_codes = rows })
    ]

unfoldable pub insert_enrollment_token :
    AgentEnrollmentTokenRecord → RemoteStore → Reply RemoteStore
insert_enrollment_token token s = elim (insert_row token_table token s.agent_enrollment_tokens) [
  | none ↦ thrown raised
  | some rows ↦ returned (record s { agent_enrollment_tokens = rows })
]

unfoldable pub get_enrollment_token_by_hash :
    String → RemoteStore → Option AgentEnrollmentTokenRecord
get_enrollment_token_by_hash token_hash s =
    find_hash token_table token_hash s.agent_enrollment_tokens

unfoldable pub mark_enrollment_token_used : String → ℕ → RemoteStore → Reply RemoteStore
mark_enrollment_token_used token_hash now s =
    elim (mark_used token_table token_hash now s.agent_enrollment_tokens) [
      | none ↦ thrown token_use_conflict
      | some rows ↦ returned (record s { agent_enrollment_tokens = rows })
    ]
