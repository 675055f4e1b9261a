-- ===== src/Remote/ControlPlane/Actions.antt =====
-- The actions that the control plane sends to an agent, src/remote/control-plane.ts: the dispatch,
-- two of its ends, which are the result of the agent and the timer, and what the caller is given
-- then. The third, the shutdown, is not modelled.
use oaslananka_lab_mcp_ssh_t.Remote.Store.Types.{
  sent, agent_offline, agent_revoked, info, returned, Reply, completed, failed, Args, thrown,
  RemoteToolName, error, timeout, RemoteAgentRecord, action_replay_detected, warn, RemotePrincipal,
  signature_invalid, agent_timeout, internal_error, ActionRecord, ActionResultEnvelope,
  RemoteErrorCode,
}
use oaslananka_lab_mcp_ssh_t.Remote.ControlPlane.State.{
  action_request, ActionRequestEnvelope, audit, RemoteConfig, PendingAction, External,
  AgentConnection, ControlPlane,
}
use oaslananka_lab_mcp_ssh_t.StringMap.{set, delete, get, StringMap}
use oaslananka_lab_mcp_ssh_t.Remote.Store.Tables.{RemoteStore}
use oaslananka_lab_mcp_ssh_t.Remote.ControlPlane.Nonces.{remember_nonce, has_seen_nonce}
use oaslananka_lab_mcp_ssh_t.Remote.Store.Records.{insert_action, update_action, get_agent}
use oaslananka_lab_mcp_ssh_t.Text.{Text}
use oaslananka_lab_mcp_ssh_t.Remote.ControlPlane.Sockets.{send_json, is_revoked_agent}
use oaslananka_lab_mcp_ssh_t.Prelude.{
  ℕ, ◌+◌, ◌*◌, min, String, Bool, true, false, not, ◌||◌, Option, none, some, [], ◌∷◌, ◌++◌, ◌==◌,
  eqb, if◌then◌else◌, get_or,
}

-- How the promise of an action is settled; an error without a code is none.
pub data Settlement : Type 0 where
  resolved : ActionResultEnvelope → Settlement
  rejected : Option RemoteErrorCode → Settlement

abbrev is_timeout : RemoteErrorCode → Bool
is_timeout agent_timeout = true
is_timeout _ = false

-- `dispatchAction` after its promise is settled.
unfoldable pub finish_action : ActionRecord → Settlement → ℕ → ControlPlane → ControlPlane
finish_action action (rejected code) now s =
    let error_code = get_or code internal_error in
    let t = record s {
      store =
          update_action
            (record action {
              status = (if is_timeout error_code then timeout else error);
              completed_at = some now;
              error_code = some error_code;
            })
            s.store;
      replies = s.replies ++ ((action.id, thrown (failed error_code 504)) ∷ []);
    } in
    audit (some action.user_id) (some action.agent_id) (some action.id) "action_denied_or_failed"
      warn now t
finish_action action (resolved result) now s =
    let t = record s {
      store =
          update_action
            (record action {
              status = (if result.is_ok then completed else error);
              completed_at = some now;
              result = some result;
              error_code = result.error_code;
            })
            s.store;
      replies = s.replies ++ ((action.id, returned result) ∷ []);
    } in
    audit (some action.user_id) (some action.agent_id) (some action.id)
      (if result.is_ok then "action_completed" else "action_denied_or_failed")
      (if result.is_ok then info else warn) now t

-- The timer is cleared and the action is no longer pending.
abbrev pub drop_pending : String → ControlPlane → ControlPlane
drop_pending action_id s = record s { pending_actions = delete action_id s.pending_actions }

-- A result that is refused.
unfoldable pub reject_result :
    PendingAction → String → String → Option RemoteErrorCode → ℕ → ControlPlane → ControlPlane
reject_result entry action_id event_type code now s =
    finish_action entry.action (rejected code) now (
      audit (some entry.action.user_id) (some entry.action.agent_id) (some entry.action.id)
        event_type warn now (drop_pending action_id s))

-- `verifyEnvelope` on a result
unfoldable pub verify_result : External → ActionResultEnvelope → String → Bool
verify_result ext result public_key =
    if result.signature == "" then false else ext.node_verify_result result public_key

-- The agent has a key and the result is signed with it.
unfoldable pub is_signed : External → ActionResultEnvelope → RemoteStore → Bool
is_signed ext result store = elim (get_agent result.agent_id store) [
  | none ↦ false
  | some agent ↦ elim agent.public_key [
    | none ↦ false
    | some public_key ↦ verify_result ext result public_key
  ]
]

abbrev pub with_nonces : String → AgentConnection → StringMap ℕ → ControlPlane → ControlPlane
with_nonces agent_id live nonces s = record s {
  agent_connections = set agent_id (record live { seen_nonces = nonces }) s.agent_connections;
}

-- From the connection of the agent on.
unfoldable pub receive_result :
    PendingAction → AgentConnection → ActionResultEnvelope → ℕ → ControlPlane → ControlPlane
receive_result entry live result now s =
    let (seen, pruned) = has_seen_nonce live.seen_nonces result.nonce now in
    if seen
    then reject_result entry result.action_id "agent_result_replay_detected"
        (some action_replay_detected) now (with_nonces result.agent_id live pruned s)
    else finish_action entry.action (resolved result) now (
        drop_pending result.action_id
          (with_nonces result.agent_id live (remember_nonce pruned result.nonce now) s))

unfoldable pub handle_action_result :
    External → ℕ → ActionResultEnvelope → ℕ → ControlPlane → ControlPlane
handle_action_result ext connection result now s = elim (get result.action_id s.pending_actions) [
  | none ↦ s
  | some entry ↦
      if not (is_signed ext result s.store)
      then reject_result entry result.action_id "agent_result_signature_invalid" none now s
      else elim (get result.agent_id s.agent_connections) [
        | none ↦
            reject_result entry result.action_id "agent_result_connection_invalid"
              (some signature_invalid) now s
        | some live ↦
            if not (entry.action.agent_id == result.agent_id)
              || not (eqb live.connection connection)
            then reject_result entry result.action_id "agent_result_connection_invalid"
                (some signature_invalid) now s
            else receive_result entry live result now s
      ]
]

-- The timer of an action fires, when it was not cleared.
unfoldable pub on_action_timeout : String → ℕ → ControlPlane → ControlPlane
on_action_timeout action_id now s = elim (get action_id s.pending_actions) [
  | none ↦ s
  | some entry ↦
      finish_action entry.action (rejected (some agent_timeout)) now (drop_pending action_id s)
]

-- The audit of an action that is sent.
abbrev noted :
    RemotePrincipal → RemoteAgentRecord → String → String → ℕ → ControlPlane → ControlPlane
noted principal agent action_id event_type now s =
    audit (some principal.user_id) (some agent.id) (some action_id) event_type info now s

-- `timeoutSeconds`, for an argument that is missing, or a number that is whole and not negative
abbrev timeout_seconds_of : RemoteConfig → RemoteAgentRecord → Args → ℕ
timeout_seconds_of config agent args =
    min
      (min (get_or args.timeout_seconds agent.policy.max_action_timeout_seconds)
        agent.policy.max_action_timeout_seconds)
      config.max_action_timeout_seconds

-- The action that is stored and waits, with the time of its timer.
abbrev pub new_entry :
    RemoteConfig
    → RemotePrincipal
    → RemoteAgentRecord
    → RemoteToolName
    → Text
    → Args
    → String
    → ℕ
    → PendingAction
new_entry config principal agent tool capability args action_id now = record {
  action = record {
    id = action_id;
    user_id = principal.user_id;
    agent_id = agent.id;
    tool = tool;
    capability = capability;
    args = args;
    status = sent;
    issued_at = now;
    deadline = now + timeout_seconds_of config agent args * 1000;
    completed_at = none;
    result = none;
    error_code = none;
  };
  fires_at = now + (timeout_seconds_of config agent args * 1000 + 2000);
}

-- The message that the agent is sent.
abbrev pub request_of : External → RemoteAgentRecord → ActionRecord → String → ActionRequestEnvelope
request_of ext agent action nonce =
    let unsigned : ActionRequestEnvelope = record {
      action_id = action.id;
      agent_id = action.agent_id;
      user_id = action.user_id;
      tool = action.tool;
      capability = action.capability;
      args = action.args;
      policy_version = agent.policy_version;
      issued_at = action.issued_at;
      deadline = action.deadline;
      nonce = nonce;
      signature = "";
    } in
    record unsigned { signature = ext.node_sign_request unsigned }

-- `dispatchAction` up to its promise: the id of the action that waits.
unfoldable pub dispatch_action :
    External
    → RemoteConfig
    → RemotePrincipal
    → RemoteAgentRecord
    → RemoteToolName
    → Text
    → Args
    → String
    → String
    → ℕ
    → ControlPlane
    → Reply String × ControlPlane
dispatch_action ext config principal agent tool capability args action_id nonce now s =
    if is_revoked_agent agent
    then (thrown (failed agent_revoked 410), s)
    else elim (get agent.id s.agent_connections) [
      | none ↦ (thrown (failed agent_offline 503), s)
      | some live ↦
          let entry = new_entry config principal agent tool capability args action_id now in
          elim (insert_action entry.action s.store) [
            | thrown failure ↦ (thrown failure, s)
            | returned store ↦
                let t = noted principal agent action_id "action_allowed" now (
                  noted principal agent action_id "action_requested" now
                    (record s { store = store })) in
                (
                  returned action_id,
                  send_json live.connection
                      (action_request (request_of ext agent entry.action nonce))
                      (record t { pending_actions = set action_id entry t.pending_actions }),
                )
          ]
    ]
