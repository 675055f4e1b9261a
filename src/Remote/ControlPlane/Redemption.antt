-- ===== src/Remote/ControlPlane/Redemption.antt =====
-- A one-use secret of src/remote/control-plane.ts is used once, over any sequence of steps.
use oaslananka_lab_mcp_ssh_t.Remote.ControlPlane.Steps.{
  Step, Steps, registers, authorizes, comes_back, logs_in, exchanges, enrolls, greets, answers,
  hangs_up, calls, patches, revokes, times_out, cleans, done, next,
}
use oaslananka_lab_mcp_ssh_t.Remote.ControlPlane.Actions.{
  Settlement, dispatch_action, handle_action_result, on_action_timeout, finish_action,
  reject_result, receive_result, resolved, rejected,
}
use oaslananka_lab_mcp_ssh_t.Remote.ControlPlane.Enroll.{
  requested_agent, insert_pending, create_token,
}
use oaslananka_lab_mcp_ssh_t.Remote.ControlPlane.Tools.{tool_capability, call_agent_tool}
use oaslananka_lab_mcp_ssh_t.Remote.ControlPlane.State.{
  cleanup_ephemeral_state, hash_secret, AgentConnection, audit, ControlPlane, PendingAction,
  RemoteConfig, External,
}
use oaslananka_lab_mcp_ssh_t.Remote.Store.Types.{
  ActionRecord, RemoteErrorCode, AgentEnrollmentTokenRecord, RemoteToolName, Args, RemotePrincipal,
  RemoteAgentRecord, ActionResultEnvelope,
}
use oaslananka_lab_mcp_ssh_t.Remote.Store.Records.{
  update_action, insert_audit, insert_agent, insert_action,
}
use oaslananka_lab_mcp_ssh_t.Remote.Store.Tables.{code_table, token_table, insert_enrollment_token}
use oaslananka_lab_mcp_ssh_t.Remote.ControlPlane.Quiet.{
  revoke-core, change_policy-core, close_connection-core, handle_agent_hello-core,
  callback_begin-core, handle_register-core, send_json-core, secrets,
}
use oaslananka_lab_mcp_ssh_t.Remote.ControlPlane.Secrets.{
  handle_agent_enroll-Evolves, handle_token-Evolves, callback_finish-Evolves, Follows-one,
  handle_authorize-Evolves, Follows-same, Evolves-trans, Evolves-same, Evolves,
}
use oaslananka_lab_mcp_ssh_t.Text.{Text}
use oaslananka_lab_mcp_ssh_t.Remote.Store.Redeemed.{issue, exec}
use oaslananka_lab_mcp_ssh_t.StringMap.{get}
use oaslananka_lab_mcp_ssh_t.Remote.ControlPlane.Calls.{call_remote_tool-state, map_reply-state}
use oaslananka_lab_mcp_ssh_t.Prelude.{
  ℕ, ◌+◌, ◌*◌, String, ◌≡◌, refl, sym, ap, subst, ◌⊎◌, inl, inr, Option, none, arith, Bool-cases,
  Option-cases,
}

-- The token that an agent is created with.
abbrev new_token :
    External → RemoteConfig → RemoteAgentRecord → String → String → ℕ → AgentEnrollmentTokenRecord
new_token ext config agent token token_id now = record {
  id = token_id;
  agent_id = agent.id;
  user_id = agent.user_id;
  token_hash = ext.sha256_base64_url token;
  expires_at = now + config.enrollment_token_ttl_seconds * 1000;
  used_at = none;
  created_at = now;
}

insert_pending-secrets :
    (ext : External) (config : RemoteConfig) (agent : RemoteAgentRecord) (token token_id : String)
    (now : ℕ) (s : ControlPlane)
    → let t = (insert_pending ext config agent token token_id now s).1 in
      (secrets t ≡ secrets s)
      ⊎ (secrets t ≡ (
        s.store.oauth_authorization_codes,
        exec token_table
            (issue (new_token ext config agent token token_id now))
            s.store.agent_enrollment_tokens,
      ))
unfolding insert_pending insert_agent insert_enrollment_token audit insert_audit hash_secret exec
insert_pending-secrets ext config agent token token_id now s = ground arith

insert_pending-Evolves :
    (ext : External) (config : RemoteConfig) (agent : RemoteAgentRecord) (token token_id : String)
    (now : ℕ) (s : ControlPlane)
    → Evolves (secrets s) (secrets (insert_pending ext config agent token token_id now s).1)
insert_pending-Evolves ext config agent token token_id now s =
    elim (insert_pending-secrets ext config agent token token_id now s) [
      | inl same ↦ Evolves-same _ _ same
      | inr one ↦ subst (Evolves (secrets s)) (sym one) (
        Follows-same code_table _,
        Follows-one token_table (issue (new_token ext config agent token token_id now)) _,
      )
    ]

create_token-state :
    (ext : External) (config : RemoteConfig) (principal : RemotePrincipal) (args : Args)
    (agent_id token token_id : String) (now : ℕ) (s : ControlPlane)
    → let t = (create_token ext config principal args agent_id token token_id now s).1 in
      (t ≡ s)
      ⊎ (t
          ≡ (insert_pending ext config
              (requested_agent principal args agent_id now)
              token
              token_id
              now
              s).1)
unfolding create_token
create_token-state ext config principal args agent_id token token_id now s = ground arith

create_token-Evolves :
    (ext : External) (config : RemoteConfig) (principal : RemotePrincipal) (args : Args)
    (agent_id token token_id : String) (now : ℕ) (s : ControlPlane)
    → Evolves
        (secrets s)
        (secrets (create_token ext config principal args agent_id token token_id now s).1)
create_token-Evolves ext config principal args agent_id token token_id now s =
    elim (create_token-state ext config principal args agent_id token token_id now s) [
      | inl same ↦ Evolves-same _ _ (ap secrets same)
      | inr e ↦
          subst (λ t. Evolves (secrets s) (secrets t)) (sym e)
            (insert_pending-Evolves ext config (requested_agent principal args agent_id now) token
              token_id now s)
    ]

finish_action-secrets :
    (action : ActionRecord) (settlement : Settlement) (now : ℕ) (s : ControlPlane)
    → secrets (finish_action action settlement now s) ≡ secrets s
unfolding finish_action audit insert_audit update_action
finish_action-secrets action (resolved result) now s = refl
finish_action-secrets action (rejected code) now s = refl

reject_result-secrets :
    (entry : PendingAction) (id event_type : String) (code : Option RemoteErrorCode) (now : ℕ)
    (s : ControlPlane)
    → secrets (reject_result entry id event_type code now s) ≡ secrets s
unfolding reject_result audit insert_audit
reject_result-secrets entry id event_type code now s =
    finish_action-secrets entry.action (rejected code) now _

receive_result-secrets :
    (entry : PendingAction) (live : AgentConnection) (result : ActionResultEnvelope) (now : ℕ)
    (s : ControlPlane)
    → secrets (receive_result entry live result now s) ≡ secrets s
unfolding receive_result
receive_result-secrets entry live result now s =
    grind (arith, reject_result-secrets, finish_action-secrets)

handle_action_result-secrets :
    (ext : External) (connection : ℕ) (result : ActionResultEnvelope) (now : ℕ) (s : ControlPlane)
    → secrets (handle_action_result ext connection result now s) ≡ secrets s
unfolding handle_action_result
handle_action_result-secrets ext connection result now s =
    grind (arith, reject_result-secrets, receive_result-secrets)

on_action_timeout-secrets :
    (id : String) (now : ℕ) (s : ControlPlane) → secrets (on_action_timeout id now s) ≡ secrets s
unfolding on_action_timeout
on_action_timeout-secrets id now s = grind (arith, finish_action-secrets)

dispatch_action-secrets :
    (ext : External) (config : RemoteConfig) (principal : RemotePrincipal)
    (agent : RemoteAgentRecord) (tool : RemoteToolName) (capability : Text) (args : Args)
    (action_id nonce : String) (now : ℕ) (s : ControlPlane)
    → secrets
        (dispatch_action ext config principal agent tool capability args action_id nonce now s).1
      ≡ secrets s
unfolding dispatch_action insert_action audit insert_audit
dispatch_action-secrets ext config principal agent tool capability args action_id nonce now s =
    elim (Option-cases (get agent.id s.agent_connections)) [
      | inl off ↦ rw (off, dispatch_action) (ground arith)
      | inr (live, on) ↦ grind (arith, send_json-core)
    ]

call_agent_tool-secrets :
    (ext : External) (config : RemoteConfig) (principal : RemotePrincipal) (tool : RemoteToolName)
    (args : Args) (action_id nonce : String) (now : ℕ) (s : ControlPlane)
    (found : RemoteAgentRecord)
    → secrets (call_agent_tool ext config principal tool args action_id nonce now s found).1
      ≡ secrets s
unfolding call_agent_tool audit insert_audit
call_agent_tool-secrets ext config principal tool args action_id nonce now s found =
    elim (Bool-cases (found.policy.capabilities (tool_capability tool))) [
      | inr denied ↦ rw (denied, call_agent_tool) refl
      | inl granted ↦
          rw (granted, call_agent_tool, map_reply-state)
            (dispatch_action-secrets ext config principal found tool (tool_capability tool) args
              action_id nonce now s)
    ]

Step-Evolves :
    (ext : External) (config : RemoteConfig) (s t : ControlPlane)
    → Step ext config s t
    → Evolves (secrets s) (secrets t)
unfolding cleanup_ephemeral_state
Step-Evolves ext config s t (registers uris name row_id client_id now) =
    Evolves-same _ _
      (ap (λ c. c.1) (handle_register-core ext config uris name row_id client_id now s))
Step-Evolves ext config s t (authorizes user query transaction_id code row_id now) =
    handle_authorize-Evolves ext config user query transaction_id code row_id now s
Step-Evolves ext config s t (comes_back code state now) =
    Evolves-same _ _ (ap (λ c. c.1) (callback_begin-core code state now s))
Step-Evolves ext config s t (logs_in wanted user code row_id now) =
    callback_finish-Evolves ext config wanted user code row_id now s
Step-Evolves ext config s t (exchanges form now) = handle_token-Evolves ext config form now s
Step-Evolves ext config s t (enrolls token public_key host now) =
    handle_agent_enroll-Evolves ext token public_key host now s
Step-Evolves ext config s t (greets connection hello now) =
    Evolves-same _ _ (ap (λ c. c.1) (handle_agent_hello-core ext connection hello now s))
Step-Evolves ext config s t (answers connection result now) =
    Evolves-same _ _ (handle_action_result-secrets ext connection result now s)
Step-Evolves ext config s t (hangs_up connection now) =
    Evolves-same _ _ (ap (λ c. c.1) (close_connection-core connection now s))
Step-Evolves ext config s t (calls principal tool args draws now) =
    call_remote_tool-state (λ t. Evolves (secrets s) (secrets t)) ext config principal args draws
      now s tool (Evolves-same _ _ refl)
      (create_token-Evolves ext config principal args draws.agent_id draws.token draws.token_id now
        s)
      (λ found. Evolves-same _ _ (
        ap (λ c. c.1)
          (change_policy-core ext config principal found args.policy draws.nonce now s)))
      (λ found. Evolves-same _ _ (ap (λ c. c.1) (revoke-core principal found now s)))
      (λ found. Evolves-same _ _ (
        call_agent_tool-secrets ext config principal tool args draws.action_id draws.nonce now s
          found))
Step-Evolves ext config s t (patches principal agent patch nonce now) =
    Evolves-same _ _
      (ap (λ c. c.1) (change_policy-core ext config principal agent patch nonce now s))
Step-Evolves ext config s t (revokes principal agent now) =
    Evolves-same _ _ (ap (λ c. c.1) (revoke-core principal agent now s))
Step-Evolves ext config s t (times_out action_id now) =
    Evolves-same _ _ (on_action_timeout-secrets action_id now s)
Step-Evolves ext config s t (cleans now) = Evolves-same _ _ refl

pub Steps-Evolves :
    (ext : External) (config : RemoteConfig) (s t : ControlPlane)
    → Steps ext config s t
    → Evolves (secrets s) (secrets t)
Steps-Evolves ext config s t done = Evolves-same _ _ refl
Steps-Evolves ext config s t (next steps step) =
    Evolves-trans _ _ _ (Steps-Evolves ext config s _ steps) (Step-Evolves ext config _ t step)
