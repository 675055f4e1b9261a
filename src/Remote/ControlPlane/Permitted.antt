-- ===== src/Remote/ControlPlane/Permitted.antt =====
-- What a call of a remote tool needs before src/remote/control-plane.ts sends an action to an agent.
use oaslananka_lab_mcp_ssh_t.Remote.Store.Types.{
  list_hosts, list_agents, create_enrollment_token, get_agent_install_command, get_system_status,
  tail_logs, restart_service, docker_ps, docker_logs, docker_restart, file_read, file_write,
  run_shell, run_shell_as_root, update_agent_policy, revoke_agent, get_audit_events, thrown, Reply,
  returned, Args, RemoteAgentRecord, RemoteToolName, RemotePrincipal,
}
use oaslananka_lab_mcp_ssh_t.Remote.ControlPlane.Tools.{
  on_agent, call_remote_tool, run_tool, call_agent_tool, map_reply, awaited, require_agent, Draws,
  ToolResult, tool_capability, resolve_agent,
}
use oaslananka_lab_mcp_ssh_t.Remote.Store.Rows.{find}
use oaslananka_lab_mcp_ssh_t.Remote.ControlPlane.State.{
  ActionRequestEnvelope, External, audit, PendingAction, AgentConnection, ControlPlane,
  RemoteConfig,
}
use oaslananka_lab_mcp_ssh_t.Remote.Store.Records.{
  insert_audit, insert_action, get_agent, agent_from_row, get_agent_by_alias,
}
use oaslananka_lab_mcp_ssh_t.Remote.Store.Tables.{RemoteStore}
use oaslananka_lab_mcp_ssh_t.Remote.ControlPlane.Sockets.{is_revoked_agent}
use oaslananka_lab_mcp_ssh_t.StringMap.{set, get-set, get}
use oaslananka_lab_mcp_ssh_t.Remote.ControlPlane.Actions.{request_of, new_entry, dispatch_action}
use oaslananka_lab_mcp_ssh_t.Remote.ControlPlane.Quiet.{send_json-core}
use oaslananka_lab_mcp_ssh_t.Remote.Scopes.{has_capability}
use oaslananka_lab_mcp_ssh_t.Remote.ControlPlane.Requests.{send_json-Sends, Sends}
use oaslananka_lab_mcp_ssh_t.Prelude.{
  ℕ, ◌+◌, ◌*◌, ◌≤◌, min, String, ◌≡◌, refl, sym, ap, subst, ◌∙◌, ◌≢◌, inl, inr, Bool, true, false,
  ◌&&◌, some, List, [], ◌∷◌, arith, ◌==◌, eq_iff, eq_refl, Bool-cases, Option-cases, get_or, any,
}

pub find-holds {ℓ} :
    {A : Type ℓ} (p : A → Bool) (rows : List A) (a : A) → find p rows ≡ some a → p a ≡ true
unfolding find
find-holds p [] a e = absurd (cc)
find-holds p (b ∷ rows) a e = elim (Bool-cases (p b)) [
  | inl yes_b ↦
      let g : some b ≡ some a = rw yes_b at e in
      let same : b ≡ a = ground (arith, g) in rw (sym same) yes_b
  | inr no_b ↦ find-holds p rows a (rw no_b at e)
]

by_alias-owner :
    (user_id alias : String) (store : RemoteStore) (a : RemoteAgentRecord)
    → get_agent_by_alias user_id alias store ≡ some a
    → a.user_id ≡ user_id
unfolding get_agent_by_alias agent_from_row
by_alias-owner user_id alias store a e =
    elim (Option-cases (find (λ r. r.user_id == user_id && r.alias == alias) store.agents)) [
      | inl bad ↦ absurd (let g = rw (bad, get_agent_by_alias) at e in cc)
      | inr (row, found) ↦
          let holds = find-holds _ store.agents row found in
          let g = rw (found, get_agent_by_alias) at e in
          let same : a.user_id ≡ row.user_id = ground (arith, g) in
          same ∙ ground (arith, holds, eq_iff row.user_id user_id)
    ]

-- An agent that a user resolves is one of the user's.
resolve_agent-owner :
    (user_id value : String) (store : RemoteStore) (a : RemoteAgentRecord)
    → resolve_agent user_id value store ≡ some a
    → a.user_id ≡ user_id
unfolding resolve_agent
resolve_agent-owner user_id value store a e = elim (Bool-cases (value == "")) [
  | inl bad ↦ absurd (let g = rw (bad, resolve_agent) at e in cc)
  | inr given ↦ elim (Option-cases (get_agent value store)) [
    | inl none_by_id ↦
        by_alias-owner user_id value store a (rw (given, none_by_id, resolve_agent) at e)
    | inr (b, found) ↦ elim (Bool-cases (b.user_id == user_id)) [
      | inl own ↦
          let g = rw (given, found, own, resolve_agent) at e in
          ground (arith, g, own, eq_iff b.user_id user_id)
      | inr other ↦
          by_alias-owner user_id value store a (rw (given, found, other, resolve_agent) at e)
    ]
  ]
]

-- The request that is sent on the connection of the agent, when that is open: for the action, the
-- agent, the caller, the tool and its capability, with the deadline of the action that waits.
abbrev pub IsSent :
    RemotePrincipal
    → RemoteToolName
    → RemoteAgentRecord
    → AgentConnection
    → PendingAction
    → ControlPlane
    → String
    → ControlPlane
    → Type 0
IsSent principal tool found live entry s id t =
    (envelope : ActionRequestEnvelope) × (envelope.action_id ≡ id)
    × (envelope.agent_id ≡ found.id)
    × (envelope.user_id ≡ principal.user_id)
    × (envelope.tool ≡ tool)
    × (envelope.capability ≡ tool_capability tool)
    × (envelope.deadline ≡ entry.action.deadline)
    × Sends live.connection envelope s t

-- What stands behind an action that waits: the agent is one that the caller names and owns, its policy
-- has the capability of the tool, it is not revoked and it is connected; the action is stored to wait,
-- with a deadline within the bounds of the policy and of the server; and one request for it is sent,
-- to that agent.
abbrev pub IsPermitted :
    RemoteConfig
    → RemotePrincipal
    → RemoteToolName
    → Args
    → ℕ
    → ControlPlane
    → String
    → ControlPlane
    → Type 0
IsPermitted config principal tool args now s id t =
    (found : RemoteAgentRecord) × (live : AgentConnection) × (entry : PendingAction)
    × (resolve_agent principal.user_id (get_or args.agent_id_or_alias "") s.store ≡ some found)
    × (found.user_id ≡ principal.user_id)
    × (found.policy.capabilities (tool_capability tool) ≡ true)
    × (is_revoked_agent found ≡ false)
    × (get found.id s.agent_connections ≡ some live)
    × (get id t.pending_actions ≡ some entry)
    × (entry.action.agent_id ≡ found.id)
    × (entry.action.deadline ≤ now + found.policy.max_action_timeout_seconds * 1000)
    × (entry.action.deadline ≤ now + config.max_action_timeout_seconds * 1000)
    × IsSent principal tool found live entry s id t

min-deadline : (now a b c : ℕ) → now + min (min a b) c * 1000 ≤ now + b * 1000
min-deadline now a b c = ground arith

min-deadline_most : (now a b c : ℕ) → now + min (min a b) c * 1000 ≤ now + c * 1000
min-deadline_most now a b c = ground arith

dispatch_action-waits :
    (ext : External) (config : RemoteConfig) (principal : RemotePrincipal)
    (found : RemoteAgentRecord) (tool : RemoteToolName) (args : Args) (action_id nonce : String)
    (now : ℕ) (s t : ControlPlane) (id : String)
    → dispatch_action ext config principal found tool
        (tool_capability tool)
        args
        action_id
        nonce
        now
        s
      ≡ (returned id, t)
    → (live : AgentConnection) × (entry : PendingAction) × (is_revoked_agent found ≡ false)
      × (get found.id s.agent_connections ≡ some live)
      × (get id t.pending_actions ≡ some entry)
      × (entry.action.agent_id ≡ found.id)
      × (entry.action.deadline ≤ now + found.policy.max_action_timeout_seconds * 1000)
      × (entry.action.deadline ≤ now + config.max_action_timeout_seconds * 1000)
      × IsSent principal tool found live entry s id t
unfolding dispatch_action insert_action audit insert_audit
dispatch_action-waits ext config principal found tool args action_id nonce now s t id e =
    elim (Bool-cases (is_revoked_agent found)) [
      | inl gone ↦ absurd (let g = rw (gone, dispatch_action) at e in cc)
      | inr there ↦ elim (Option-cases (get found.id s.agent_connections)) [
        | inl off ↦ absurd (let g = rw (there, off, dispatch_action) at e in cc)
        | inr (live, on) ↦ elim (Bool-cases (any (λ a. a.id == action_id) s.store.actions)) [
          | inl old ↦ absurd (let g = rw (there, on, old, dispatch_action) at e in cc)
          | inr new ↦
              let g = rw (there, on, new, dispatch_action) at e in
              let same : action_id ≡ id = ground (arith, ap (λ r. r.0) g) in
              let entry =
                new_entry config principal found tool (tool_capability tool) args action_id now in
              let envelope = request_of ext found entry.action nonce in
              let sent : Sends live.connection envelope s t =
                subst (Sends live.connection envelope s) (ap (λ r. r.1) g)
                  (send_json-Sends live.connection envelope _) in
              let waits = ap (λ r. r.1.pending_actions) g in
              let kept = ap (λ c. c.0.0) (send_json-core live.connection _ _) in
              let stands : get action_id t.pending_actions
                  ≡ get action_id (set action_id entry s.pending_actions) =
                ap (get action_id) (sym waits ∙ kept) in
              let held : get action_id (set action_id entry s.pending_actions) ≡ some entry =
                get-set action_id action_id entry s.pending_actions ∙ rw (eq_refl action_id) refl in
              (
                live,
                entry,
                there,
                on,
                subst (λ k. get k t.pending_actions ≡ some entry) same (stands ∙ held),
                refl,
                min-deadline now _ found.policy.max_action_timeout_seconds
                    config.max_action_timeout_seconds,
                min-deadline_most now _ found.policy.max_action_timeout_seconds
                    config.max_action_timeout_seconds,
                (envelope, same, refl, refl, refl, refl, refl, sent),
              )
        ]
      ]
    ]

map_reply-thrown :
    {A : Type 0} (f : A → ToolResult) (r : Reply A × ControlPlane) (id : String) (t : ControlPlane)
    → ((a : A) → f a ≢ awaited id)
    → map_reply f r ≢ (returned (awaited id), t)
map_reply-thrown f (returned a, s) id t h e = h a (ground (arith, ap (λ r. r.0) e))
map_reply-thrown f (thrown failure, s) id t h e = cc

map_reply-awaited :
    (r : Reply String × ControlPlane) (id : String) (t : ControlPlane)
    → map_reply awaited r ≡ (returned (awaited id), t)
    → r ≡ (returned id, t)
map_reply-awaited (returned a, s) id t e =
    let same : a ≡ id = ground (arith, ap (λ r. r.0) e) in
    let state : s ≡ t = ap (λ r. r.1) e in rw (same, state) refl
map_reply-awaited (thrown failure, s) id t e = absurd (cc)

-- An action on an agent that the arguments name.
on_agent-found :
    (user_id : String) (args : Args) (s t : ControlPlane) (id : String)
    (act : RemoteAgentRecord → Reply ToolResult × ControlPlane)
    → on_agent user_id args s act ≡ (returned (awaited id), t)
    → (found : RemoteAgentRecord) × (resolve_agent user_id
          (get_or args.agent_id_or_alias "")
          s.store
        ≡ some found)
      × (act found ≡ (returned (awaited id), t))
unfolding require_agent
on_agent-found user_id args s t id act e =
    elim (Option-cases (resolve_agent user_id (get_or args.agent_id_or_alias "") s.store)) [
      | inl bad ↦ absurd (let g = rw (bad, require_agent, on_agent) at e in cc)
      | inr (found, ok) ↦ (found, ok, rw (ok, require_agent, on_agent) at e)
    ]

module _ (ext : External) (config : RemoteConfig) (principal : RemotePrincipal) (args : Args)
    (draws : Draws) (now : ℕ) (s t : ControlPlane) (id : String) where
  agent_tool-IsPermitted :
      (tool : RemoteToolName)
      → on_agent principal.user_id args s
          (call_agent_tool ext config principal tool args draws.action_id draws.nonce now s)
        ≡ (returned (awaited id), t)
      → IsPermitted config principal tool args now s id t
  unfolding call_agent_tool
  agent_tool-IsPermitted tool e =
      let (found, ok, called) = on_agent-found principal.user_id args s t id _ e in
      elim (Bool-cases (found.policy.capabilities (tool_capability tool))) [
        | inr denied ↦ absurd (let g = rw (denied, call_agent_tool) at called in cc)
        | inl granted ↦
            let sent_it = map_reply-awaited _ id t (rw (granted, call_agent_tool) at called) in
            let (live, entry, there, on, held, own, bound, most, sent) =
              dispatch_action-waits ext config principal found tool args draws.action_id draws.nonce
                now s t id sent_it in
            (
              found,
              live,
              entry,
              ok,
              resolve_agent-owner principal.user_id (get_or args.agent_id_or_alias "") s.store found
                  ok,
              granted,
              there,
              on,
              held,
              own,
              bound,
              most,
              sent,
            )
      ]

  run_tool-IsPermitted :
      (tool : RemoteToolName)
      → run_tool ext config principal tool args draws now s ≡ (returned (awaited id), t)
      → IsPermitted config principal tool args now s id t
  unfolding run_tool
  run_tool-IsPermitted list_hosts e = absurd (cc)
  run_tool-IsPermitted list_agents e = absurd (cc)
  run_tool-IsPermitted get_audit_events e = absurd (cc)
  run_tool-IsPermitted create_enrollment_token e = absurd (map_reply-thrown _ _ id t (λ a h. cc) e)
  run_tool-IsPermitted get_agent_install_command e =
      absurd (let (found, ok, called) = on_agent-found principal.user_id args s t id _ e in cc)
  run_tool-IsPermitted update_agent_policy e =
      let (found, ok, called) = on_agent-found principal.user_id args s t id _ e in
      absurd (map_reply-thrown _ _ id t (λ a h. cc) called)
  run_tool-IsPermitted revoke_agent e =
      let (found, ok, called) = on_agent-found principal.user_id args s t id _ e in
      absurd (map_reply-thrown _ _ id t (λ a h. cc) called)
  run_tool-IsPermitted get_system_status e = agent_tool-IsPermitted get_system_status e
  run_tool-IsPermitted tail_logs e = agent_tool-IsPermitted tail_logs e
  run_tool-IsPermitted restart_service e = agent_tool-IsPermitted restart_service e
  run_tool-IsPermitted docker_ps e = agent_tool-IsPermitted docker_ps e
  run_tool-IsPermitted docker_logs e = agent_tool-IsPermitted docker_logs e
  run_tool-IsPermitted docker_restart e = agent_tool-IsPermitted docker_restart e
  run_tool-IsPermitted file_read e = agent_tool-IsPermitted file_read e
  run_tool-IsPermitted file_write e = agent_tool-IsPermitted file_write e
  run_tool-IsPermitted run_shell e = agent_tool-IsPermitted run_shell e
  run_tool-IsPermitted run_shell_as_root e = agent_tool-IsPermitted run_shell_as_root e

  pub call_remote_tool-awaited :
      (tool : RemoteToolName)
      → call_remote_tool ext config principal tool args draws now s ≡ (returned (awaited id), t)
      → (has_capability principal.capabilities (tool_capability tool) ≡ true)
        × IsPermitted config principal tool args now s id t
  unfolding call_remote_tool
  call_remote_tool-awaited tool e =
      elim (Bool-cases (has_capability principal.capabilities (tool_capability tool))) [
        | inr denied ↦ absurd (let g = rw (denied, call_remote_tool) at e in cc)
        | inl granted ↦ (granted, run_tool-IsPermitted tool (rw (granted, call_remote_tool) at e))
      ]
