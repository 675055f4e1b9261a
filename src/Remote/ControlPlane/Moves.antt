-- ===== src/Remote/ControlPlane/Moves.antt =====
-- What each step of src/remote/control-plane.ts does to the actions: it refines the machine whose moves
-- are to send a new action and to answer a waiting one.
use oaslananka_lab_mcp_ssh_t.Remote.ControlPlane.Steps.{
  Step, registers, authorizes, comes_back, logs_in, exchanges, enrolls, greets, answers, hangs_up,
  calls, patches, revokes, times_out, cleans,
}
use oaslananka_lab_mcp_ssh_t.Remote.ControlPlane.Actions.{
  drop_pending, is_signed, Settlement, reject_result, finish_action, on_action_timeout,
  handle_action_result, receive_result, dispatch_action, resolved, rejected,
}
use oaslananka_lab_mcp_ssh_t.Remote.ControlPlane.Tools.{tool_capability, call_agent_tool}
use oaslananka_lab_mcp_ssh_t.Remote.ControlPlane.State.{
  AgentConnection, RemoteConfig, PendingAction, External, audit, cleanup_ephemeral_state,
  ControlPlane,
}
use oaslananka_lab_mcp_ssh_t.Remote.ControlPlane.Settled.{is_stored-update, is_stored, Move}
use oaslananka_lab_mcp_ssh_t.Remote.Store.Records.{update_action, insert_audit, insert_action}
use oaslananka_lab_mcp_ssh_t.Remote.Store.Types.{
  internal_error, failed, thrown, returned, agent_timeout, Args, Reply, ActionRecord,
  RemoteToolName, RemoteAgentRecord, RemoteErrorCode, RemotePrincipal, ActionResultEnvelope,
}
use oaslananka_lab_mcp_ssh_t.Remote.ControlPlane.Quiet.{
  revoke-core, change_policy-core, create_token-acts, close_connection-core,
  handle_agent_hello-core, handle_agent_enroll-acts, handle_token-acts, send_json-core,
  callback_finish-acts, callback_begin-core, handle_authorize-acts, Acts, handle_register-core,
  acts,
}
use oaslananka_lab_mcp_ssh_t.StringMap.{delete, get}
use oaslananka_lab_mcp_ssh_t.Remote.ControlPlane.Nonces.{has_seen_nonce}
use oaslananka_lab_mcp_ssh_t.Text.{Text}
use oaslananka_lab_mcp_ssh_t.Remote.ControlPlane.Sockets.{is_revoked_agent}
use oaslananka_lab_mcp_ssh_t.Remote.ControlPlane.Calls.{call_remote_tool-state, map_reply-state}
use oaslananka_lab_mcp_ssh_t.Prelude.{
  ℕ, String, ◌≡◌, refl, ap, ◌∙◌, inl, inr, not, ◌||◌, Option, some, List, [], ◌∷◌, ◌++◌, ◌==◌, eqb,
  Bool-cases, Option-cases, get_or,
}

-- What a settled promise leaves.
finish_action-acts :
    (action : ActionRecord) (settlement : Settlement) (now : ℕ) (s : ControlPlane)
    → (reply : Reply ActionResultEnvelope) × (actions : List ActionRecord) × (acts
          (finish_action action settlement now s)
        ≡ (s.pending_actions, s.replies ++ ((action.id, reply) ∷ []), actions))
      × ((id : String) → is_stored id actions ≡ is_stored id s.store.actions)
unfolding finish_action audit insert_audit update_action
finish_action-acts action (resolved result) now s =
    (returned result, _, refl, λ id. is_stored-update id _ _ (λ a. refl) s.store.actions)
finish_action-acts action (rejected code) now s = (
  thrown (failed (get_or code internal_error) 504),
  _,
  refl,
  λ id. is_stored-update id _ _ (λ a. refl) s.store.actions,
)

settle-Move :
    (s t : ControlPlane) (id : String) (entry : PendingAction) (settlement : Settlement) (now : ℕ)
    → get id s.pending_actions ≡ some entry
    → acts t ≡ (delete id s.pending_actions, s.replies, s.store.actions)
    → Move (acts s) (acts (finish_action entry.action settlement now t))
settle-Move s t id entry settlement now g e =
    let (reply, actions, shape, stored) = finish_action-acts entry.action settlement now t in
    let after : Acts → Acts = λ a. (a.0, a.1 ++ ((entry.action.id, reply) ∷ []), actions) in
    let kept : (k : String) → is_stored k actions ≡ is_stored k s.store.actions =
      λ k. stored k ∙ ap (λ a. is_stored k a.2) e in
    inr (inr (id, entry, reply, actions, g, kept, shape ∙ ap after e))

reject_result-Move :
    (s : ControlPlane) (id : String) (entry : PendingAction) (event_type : String)
    (code : Option RemoteErrorCode) (now : ℕ) (t : ControlPlane)
    → get id s.pending_actions ≡ some entry
    → acts t ≡ acts s
    → Move (acts s) (acts (reject_result entry id event_type code now t))
unfolding reject_result audit insert_audit
reject_result-Move s id entry event_type code now t g e =
    settle-Move s _ id entry (rejected code) now g (ap (λ a. (delete id a.0, a.1, a.2)) e)

on_action_timeout-Move :
    (id : String) (now : ℕ) (s : ControlPlane) → Move (acts s) (acts (on_action_timeout id now s))
unfolding on_action_timeout
on_action_timeout-Move id now s = elim (Option-cases (get id s.pending_actions)) [
  | inl gone ↦ rw (gone, on_action_timeout) (inl refl)
  | inr (entry, g) ↦
      rw (g, on_action_timeout)
        (settle-Move s (drop_pending id s) id entry (rejected (some agent_timeout)) now g refl)
]

receive_result-Move :
    (entry : PendingAction) (live : AgentConnection) (result : ActionResultEnvelope) (now : ℕ)
    (s : ControlPlane)
    → get result.action_id s.pending_actions ≡ some entry
    → Move (acts s) (acts (receive_result entry live result now s))
unfolding receive_result
receive_result-Move entry live result now s g =
    elim (Bool-cases (has_seen_nonce live.seen_nonces result.nonce now).0) [
      | inl seen ↦
          rw (seen, receive_result) (reject_result-Move s result.action_id entry _ _ now _ g refl)
      | inr fresh ↦
          rw (fresh, receive_result)
            (settle-Move s _ result.action_id entry (resolved result) now g refl)
    ]

handle_action_result-Move :
    (ext : External) (connection : ℕ) (result : ActionResultEnvelope) (now : ℕ) (s : ControlPlane)
    → Move (acts s) (acts (handle_action_result ext connection result now s))
unfolding handle_action_result
handle_action_result-Move ext connection result now s =
    elim (Option-cases (get result.action_id s.pending_actions)) [
      | inl gone ↦ rw (gone, handle_action_result) (inl refl)
      | inr (entry, g) ↦ elim (Bool-cases (is_signed ext result s.store)) [
        | inr bad ↦
            rw (g, bad, handle_action_result)
              (reject_result-Move s result.action_id entry _ _ now s g refl)
        | inl ok ↦ elim (Option-cases (get result.agent_id s.agent_connections)) [
          | inl off ↦
              rw (g, ok, off, handle_action_result)
                (reject_result-Move s result.action_id entry _ _ now s g refl)
          | inr (live, on) ↦
              elim (Bool-cases (
                not (entry.action.agent_id == result.agent_id)
                || not (eqb live.connection connection))) [
                  | inl bad ↦
                      rw (g, ok, on, bad, handle_action_result)
                        (reject_result-Move s result.action_id entry _ _ now s g refl)
                  | inr own ↦
                      rw (g, ok, on, own, handle_action_result)
                        (receive_result-Move entry live result now s g)
                ]
        ]
      ]
    ]

-- What a dispatch does to the actions: nothing, or a new one is stored and waits.
dispatch_action-Move :
    (ext : External) (config : RemoteConfig) (principal : RemotePrincipal)
    (agent : RemoteAgentRecord) (tool : RemoteToolName) (capability : Text) (args : Args)
    (action_id nonce : String) (now : ℕ) (s : ControlPlane)
    → Move (acts s) (
        acts
          (dispatch_action ext config principal agent tool capability args action_id nonce now s).1)
unfolding dispatch_action insert_action audit insert_audit
dispatch_action-Move ext config principal agent tool capability args action_id nonce now s =
    elim (Bool-cases (is_revoked_agent agent)) [
      | inl gone ↦ rw (gone, dispatch_action) (inl refl)
      | inr there ↦ elim (Option-cases (get agent.id s.agent_connections)) [
        | inl off ↦ rw (there, off, dispatch_action) (inl refl)
        | inr (live, on) ↦ elim (Bool-cases (is_stored action_id s.store.actions)) [
          | inl old ↦ rw (there, on, old, dispatch_action) (inl refl)
          | inr new ↦
              rw (there, on, new, dispatch_action)
                (inr (inl (_, new, ap (λ c. c.0) (send_json-core live.connection _ _))))
        ]
      ]
    ]

call_agent_tool-Move :
    (ext : External) (config : RemoteConfig) (principal : RemotePrincipal) (tool : RemoteToolName)
    (args : Args) (action_id nonce : String) (now : ℕ) (s : ControlPlane)
    (found : RemoteAgentRecord)
    → Move
        (acts s)
        (acts (call_agent_tool ext config principal tool args action_id nonce now s found).1)
unfolding call_agent_tool audit insert_audit
call_agent_tool-Move ext config principal tool args action_id nonce now s found =
    elim (Bool-cases (found.policy.capabilities (tool_capability tool))) [
      | inr denied ↦ rw (denied, call_agent_tool) (inl refl)
      | inl granted ↦
          rw (granted, call_agent_tool, map_reply-state)
            (dispatch_action-Move ext config principal found tool (tool_capability tool) args
              action_id nonce now s)
    ]

-- Every step of the control plane is a move of the abstract machine of actions: it leaves the waiting
-- actions, the answers and the ids that are stored as they are, or stores a new action that waits, or
-- answers one waiting action and no other.
pub Step-Move :
    (ext : External) (config : RemoteConfig) (s t : ControlPlane)
    → Step ext config s t
    → Move (acts s) (acts t)
unfolding cleanup_ephemeral_state
Step-Move ext config s t (registers uris name row_id client_id now) =
    inl (ap (λ c. c.0) (handle_register-core ext config uris name row_id client_id now s))
Step-Move ext config s t (authorizes user query transaction_id code row_id now) =
    inl (handle_authorize-acts ext config user query transaction_id code row_id now s)
Step-Move ext config s t (comes_back code state now) =
    inl (ap (λ c. c.0) (callback_begin-core code state now s))
Step-Move ext config s t (logs_in wanted user code row_id now) =
    inl (callback_finish-acts ext config wanted user code row_id now s)
Step-Move ext config s t (exchanges form now) = inl (handle_token-acts ext config form now s)
Step-Move ext config s t (enrolls token public_key host now) =
    inl (handle_agent_enroll-acts ext token public_key host now s)
Step-Move ext config s t (greets connection hello now) =
    inl (ap (λ c. c.0) (handle_agent_hello-core ext connection hello now s))
Step-Move ext config s t (answers connection result now) =
    handle_action_result-Move ext connection result now s
Step-Move ext config s t (hangs_up connection now) =
    inl (ap (λ c. c.0) (close_connection-core connection now s))
Step-Move ext config s t (calls principal tool args draws now) =
    call_remote_tool-state (λ t. Move (acts s) (acts t)) ext config principal args draws now s tool
      (inl refl)
      (inl (
        create_token-acts ext config principal args draws.agent_id draws.token draws.token_id now
          s))
      (λ found. inl (
        ap (λ c. c.0)
          (change_policy-core ext config principal found args.policy draws.nonce now s)))
      (λ found. inl (ap (λ c. c.0) (revoke-core principal found now s)))
      (λ found.
        call_agent_tool-Move ext config principal tool args draws.action_id draws.nonce now s found)
Step-Move ext config s t (patches principal agent patch nonce now) =
    inl (ap (λ c. c.0) (change_policy-core ext config principal agent patch nonce now s))
Step-Move ext config s t (revokes principal agent now) =
    inl (ap (λ c. c.0) (revoke-core principal agent now s))
Step-Move ext config s t (times_out action_id now) = on_action_timeout-Move action_id now s
Step-Move ext config s t (cleans now) = inl refl
