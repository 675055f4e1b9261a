-- ===== src/Remote/ControlPlane/Quiet.antt =====
-- The requests and messages of src/remote/control-plane.ts that leave the actions alone, and those
-- that leave the tables of secrets alone too.
use oaslananka_lab_mcp_ssh_t.Remote.ControlPlane.Sockets.{
  accept_hello, refuse, handle_agent_hello, send_json, run_close_handlers, set_offline, on_close,
  close_connection,
}
use oaslananka_lab_mcp_ssh_t.StringMap.{StringMap}
use oaslananka_lab_mcp_ssh_t.Remote.ControlPlane.State.{
  agent_ready, AgentConnection, error_message, AgentHelloEnvelope, cleanup_ephemeral_state, Message,
  PendingAuthorize, RemoteConfig, External, PendingAction, audit, ControlPlane,
}
use oaslananka_lab_mcp_ssh_t.Remote.ControlPlane.OAuth.{
  wanted_of, begin_login, issue_authorization_code, AuthorizeQuery, upsert_github_user,
  callback_finish, finish_login, handle_authorize, handle_register, callback_begin,
}
use oaslananka_lab_mcp_ssh_t.Remote.Store.Tables.{
  insert_authorization_code, insert_enrollment_token, mark_enrollment_token_used, upsert_user,
  mark_authorization_code_used, insert_client,
}
use oaslananka_lab_mcp_ssh_t.Remote.Store.Types.{
  AgentEnrollmentTokenRecord, OAuthAuthorizationCode, Args, returned, AgentHostMetadata, thrown,
  RemotePrincipal, RemoteErrorCode, GitHubUser, RemoteAgentRecord, ActionRecord,
  ActionResultEnvelope, Reply,
}
use oaslananka_lab_mcp_ssh_t.Remote.Store.Records.{insert_agent, update_agent, insert_audit}
use oaslananka_lab_mcp_ssh_t.Remote.ControlPlane.Token.{TokenForm, redeem_code, handle_token}
use oaslananka_lab_mcp_ssh_t.Remote.ControlPlane.Policies.{
  announce_policy, disconnect, change_policy, revoke,
}
use oaslananka_lab_mcp_ssh_t.Remote.ControlPlane.Enroll.{
  enroll_agent, insert_pending, create_token, handle_agent_enroll,
}
use oaslananka_lab_mcp_ssh_t.Remote.AgentPolicy.{PolicyPatch}
use oaslananka_lab_mcp_ssh_t.Prelude.{
  ℕ, String, ◌≡◌, refl, ◌∙◌, inl, inr, Option, none, some, List, [], ◌∷◌, arith, eqb, Bool-cases,
}

-- The part of the state that the actions are kept in.
abbrev pub Acts : Type 0
Acts = StringMap PendingAction × List (String × Reply ActionResultEnvelope) × List ActionRecord

abbrev pub Secrets : Type 0
Secrets = List OAuthAuthorizationCode × List AgentEnrollmentTokenRecord

abbrev pub acts : ControlPlane → Acts
acts s = (s.pending_actions, s.replies, s.store.actions)

-- The tables of one-use secrets.
abbrev pub secrets : ControlPlane → Secrets
secrets s = (s.store.oauth_authorization_codes, s.store.agent_enrollment_tokens)

abbrev core : ControlPlane → Acts × Secrets
core s = (acts s, secrets s)

pub handle_register-core :
    (ext : External) (config : RemoteConfig) (uris : List String) (name : Option String)
    (row_id client_id : String) (now : ℕ) (s : ControlPlane)
    → core (handle_register ext config uris name row_id client_id now s).1 ≡ core s
unfolding handle_register insert_client audit insert_audit
handle_register-core ext config uris name row_id client_id now s = ground arith

pub callback_begin-core :
    (code state : String) (now : ℕ) (s : ControlPlane)
    → core (callback_begin code state now s).1 ≡ core s
unfolding callback_begin
callback_begin-core code state now s = ground arith

on_close-core :
    (connection : ℕ) (agent : RemoteAgentRecord) (now : ℕ) (s : ControlPlane)
    → core (on_close connection agent now s) ≡ core s
unfolding on_close audit insert_audit set_offline update_agent
on_close-core connection agent now s = ground arith

run_close_handlers-core :
    (connection now : ℕ) (handlers : List (ℕ × RemoteAgentRecord)) (s : ControlPlane)
    → core (run_close_handlers connection now handlers s) ≡ core s
unfolding run_close_handlers
run_close_handlers-core connection now [] s = refl
run_close_handlers-core connection now ((owner, agent) ∷ handlers) s =
    elim (Bool-cases (eqb owner connection)) [
      | inl own ↦
          rw (own, run_close_handlers)
            (run_close_handlers-core connection now handlers (on_close connection agent now s)
              ∙ on_close-core connection agent now s)
      | inr other ↦
          rw (other, run_close_handlers) (run_close_handlers-core connection now handlers s)
    ]

pub close_connection-core :
    (connection now : ℕ) (s : ControlPlane) → core (close_connection connection now s) ≡ core s
unfolding close_connection
close_connection-core connection now s = ground (
  arith,
  run_close_handlers-core connection now s.close_handlers
      (record s { closed = connection ∷ s.closed }),
)

pub send_json-core :
    (connection : ℕ) (message : Message) (s : ControlPlane)
    → core (send_json connection message s) ≡ core s
unfolding send_json
send_json-core connection message s = ground arith

refuse-core :
    (connection : ℕ) (code : RemoteErrorCode) (now : ℕ) (s : ControlPlane)
    → core (refuse connection code now s) ≡ core s
unfolding refuse
refuse-core connection code now s =
    close_connection-core connection now (send_json connection (error_message code) s)
    ∙ send_json-core connection (error_message code) s

accept_hello-core :
    (agent : RemoteAgentRecord) (connection : ℕ) (hello : AgentHelloEnvelope) (nonces : StringMap ℕ)
    (existing : Option AgentConnection) (now : ℕ) (s : ControlPlane)
    → core (accept_hello agent connection hello nonces existing now s) ≡ core s
unfolding accept_hello audit insert_audit update_agent
accept_hello-core agent connection hello nonces none now s =
    send_json-core connection (agent_ready agent.id agent.policy) _
accept_hello-core agent connection hello nonces (some old) now s =
    send_json-core connection (agent_ready agent.id agent.policy) _
    ∙ close_connection-core old.connection now _

pub handle_agent_hello-core :
    (ext : External) (connection : ℕ) (hello : AgentHelloEnvelope) (now : ℕ) (s : ControlPlane)
    → core (handle_agent_hello ext connection hello now s) ≡ core s
unfolding handle_agent_hello audit insert_audit cleanup_ephemeral_state
handle_agent_hello-core ext connection hello now s = grind (arith, refuse-core, accept_hello-core)

pub handle_token-acts :
    (ext : External) (config : RemoteConfig) (form : TokenForm) (now : ℕ) (s : ControlPlane)
    → acts (handle_token ext config form now s).1 ≡ acts s
unfolding handle_token redeem_code mark_authorization_code_used
handle_token-acts ext config form now s = ground arith

finish_login-acts :
    (ext : External) (config : RemoteConfig) (wanted : PendingAuthorize) (user : GitHubUser)
    (code row_id : String) (now : ℕ) (s : ControlPlane)
    → acts (finish_login ext config wanted user code row_id now s).1 ≡ acts s
unfolding finish_login upsert_github_user upsert_user issue_authorization_code
    insert_authorization_code audit insert_audit
finish_login-acts ext config wanted user code row_id now s = ground arith

pub callback_finish-acts :
    (ext : External) (config : RemoteConfig) (wanted : PendingAuthorize) (user : Reply GitHubUser)
    (code row_id : String) (now : ℕ) (s : ControlPlane)
    → acts (callback_finish ext config wanted user code row_id now s).1 ≡ acts s
unfolding callback_finish
callback_finish-acts ext config wanted (thrown failure) code row_id now s = refl
callback_finish-acts ext config wanted (returned user) code row_id now s =
    finish_login-acts ext config wanted user code row_id now s

begin_login-acts :
    (ext : External) (config : RemoteConfig) (user : Option GitHubUser) (wanted : PendingAuthorize)
    (transaction_id code row_id : String) (now : ℕ) (s : ControlPlane)
    → acts (begin_login ext config user wanted transaction_id code row_id now s).1 ≡ acts s
unfolding begin_login
begin_login-acts ext config none wanted transaction_id code row_id now s = ground arith
begin_login-acts ext config (some user) wanted transaction_id code row_id now s =
    finish_login-acts ext config wanted user code row_id now s

pub handle_authorize-acts :
    (ext : External) (config : RemoteConfig) (user : Option GitHubUser) (query : AuthorizeQuery)
    (transaction_id code row_id : String) (now : ℕ) (s : ControlPlane)
    → acts (handle_authorize ext config user query transaction_id code row_id now s).1 ≡ acts s
unfolding handle_authorize
handle_authorize-acts ext config user query transaction_id code row_id now s = ground (
  arith,
  begin_login-acts ext config user (wanted_of config query now) transaction_id code row_id now s,
)

pub handle_agent_enroll-acts :
    (ext : External) (token public_key : Option String) (host : Option AgentHostMetadata) (now : ℕ)
    (s : ControlPlane)
    → acts (handle_agent_enroll ext token public_key host now s).1 ≡ acts s
unfolding handle_agent_enroll enroll_agent mark_enrollment_token_used update_agent audit
    insert_audit
handle_agent_enroll-acts ext token public_key none now s = refl
handle_agent_enroll-acts ext token public_key (some host) now s = ground arith

pub create_token-acts :
    (ext : External) (config : RemoteConfig) (principal : RemotePrincipal) (args : Args)
    (agent_id token token_id : String) (now : ℕ) (s : ControlPlane)
    → acts (create_token ext config principal args agent_id token token_id now s).1 ≡ acts s
unfolding create_token insert_pending insert_agent insert_enrollment_token audit insert_audit
create_token-acts ext config principal args agent_id token token_id now s = ground arith

pub change_policy-core :
    (ext : External) (config : RemoteConfig) (principal : RemotePrincipal)
    (agent : RemoteAgentRecord) (patch : PolicyPatch) (nonce : String) (now : ℕ) (s : ControlPlane)
    → core (change_policy ext config principal agent patch nonce now s).1 ≡ core s
unfolding change_policy announce_policy update_agent audit insert_audit
change_policy-core ext config principal agent patch nonce now s = grind (arith, send_json-core)

pub revoke-core :
    (principal : RemotePrincipal) (agent : RemoteAgentRecord) (now : ℕ) (s : ControlPlane)
    → core (revoke principal agent now s).1 ≡ core s
unfolding revoke disconnect update_agent audit insert_audit
revoke-core principal agent now s = grind (arith, close_connection-core)
