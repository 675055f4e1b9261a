-- ===== src/Remote/ControlPlane/Revoked.antt =====
-- The states of an agent over its life, src/remote/control-plane.ts: what a revocation ends, and what
-- brings an agent back.
use oaslananka_lab_mcp_ssh_t.Remote.Store.Records.{insert_audit, get_agent, update_agent}
use oaslananka_lab_mcp_ssh_t.Remote.Store.Tables.{RemoteStore}
use oaslananka_lab_mcp_ssh_t.Remote.Store.Types.{
  agent_not_found, agent_revoked, failed, thrown, Args, RemoteToolName, returned, RemotePrincipal,
  offline, revoked, RemoteAgentRecord,
}
use oaslananka_lab_mcp_ssh_t.Remote.ControlPlane.Sockets.{
  send_json, refuse, handle_agent_hello, run_close_handlers, close_connection, is_revoked_agent,
  set_offline, on_close,
}
use oaslananka_lab_mcp_ssh_t.Remote.ControlPlane.State.{
  AgentHelloEnvelope, RemoteConfig, External, has_number, ControlPlane, audit,
}
use oaslananka_lab_mcp_ssh_t.Remote.ControlPlane.Policies.{
  capped_policy, announce_policy, change_policy, disconnect, revoke,
}
use oaslananka_lab_mcp_ssh_t.Remote.ControlPlane.Actions.{dispatch_action}
use oaslananka_lab_mcp_ssh_t.StringMap.{get-delete, get, has}
use oaslananka_lab_mcp_ssh_t.Remote.Scopes.{has_capability}
use oaslananka_lab_mcp_ssh_t.Text.{codes}
use oaslananka_lab_mcp_ssh_t.Remote.ControlPlane.Tools.{tool_capability}
use oaslananka_lab_mcp_ssh_t.Remote.AgentPolicy.{AgentPolicy, PolicyPatch}
use oaslananka_lab_mcp_ssh_t.Remote.ControlPlane.Statuses.{
  status-update_other, status-update_agent, get_agent-id, status_of,
}
use oaslananka_lab_mcp_ssh_t.Prelude.{
  ℕ, ◌+◌, String, ◌≡◌, refl, sym, ap, subst, ◌∙◌, inl, inr, true, false, some, map_option, List, [],
  ◌∷◌, arith, ◌==◌, eq_iff, eq_refl, eqb, Bool-cases, Option-cases, is_some,
}

-- Going offline does not touch an agent that is revoked.
set_offline-revoked :
    (j k : String) (now : ℕ) (store : RemoteStore)
    → status_of k store ≡ some revoked
    → status_of k (set_offline j now store) ≡ some revoked
unfolding set_offline
set_offline-revoked j k now store h = elim (Option-cases (get_agent j store)) [
  | inl missing ↦ rw (missing, set_offline) h
  | inr (latest, found) ↦ elim (Bool-cases (is_revoked_agent latest)) [
    | inl gone ↦ rw (found, gone, set_offline) h
    | inr there ↦
        let key = get_agent-id j store latest found in
        elim (Bool-cases (latest.id == k)) [
          | inl same ↦
              let id_k : latest.id ≡ k = (eq_iff latest.id k).0 same in
              let at_k : get_agent k store ≡ some latest =
                subst (λ z. get_agent z store ≡ some latest) (sym key ∙ id_k) found in
              absurd (let r = rw at_k at h in ground (arith, r, there))
          | inr other ↦
              rw (found, there, set_offline)
                (status-update_other (record latest { status = offline; updated_at = now }) k store
                    other
                  ∙ h)
        ]
  ]
]

on_close-revoked :
    (connection : ℕ) (agent : RemoteAgentRecord) (now : ℕ) (k : String) (s : ControlPlane)
    → status_of k s.store ≡ some revoked
    → status_of k (on_close connection agent now s).store ≡ some revoked
unfolding on_close audit insert_audit get_agent
on_close-revoked connection agent now k s h = grind (arith, set_offline-revoked)

run_close_handlers-revoked :
    (connection now : ℕ) (handlers : List (ℕ × RemoteAgentRecord)) (k : String) (s : ControlPlane)
    → status_of k s.store ≡ some revoked
    → status_of k (run_close_handlers connection now handlers s).store ≡ some revoked
unfolding run_close_handlers
run_close_handlers-revoked connection now [] k s h = h
run_close_handlers-revoked connection now ((owner, agent) ∷ handlers) k s h =
    elim (Bool-cases (eqb owner connection)) [
      | inl own ↦
          rw (own, run_close_handlers)
            (run_close_handlers-revoked connection now handlers k (on_close connection agent now s)
              (on_close-revoked connection agent now k s h))
      | inr other ↦
          rw (other, run_close_handlers) (run_close_handlers-revoked connection now handlers k s h)
    ]

-- Whatever connection is closed, an agent that is revoked stays so.
close_connection-revoked :
    (connection now : ℕ) (k : String) (s : ControlPlane)
    → status_of k s.store ≡ some revoked
    → status_of k (close_connection connection now s).store ≡ some revoked
unfolding close_connection
close_connection-revoked connection now k s h = elim (Bool-cases (has_number s.closed connection)) [
  | inl shut ↦ rw (shut, close_connection) h
  | inr live ↦
      rw (live, close_connection)
        (run_close_handlers-revoked connection now s.close_handlers k
          (record s { closed = connection ∷ s.closed }) h)
]

disconnect-revoked :
    (agent_id : String) (now : ℕ) (s : ControlPlane)
    → status_of agent_id s.store ≡ some revoked
    → (has agent_id (disconnect agent_id now s).agent_connections ≡ false)
      × (status_of agent_id (disconnect agent_id now s).store ≡ some revoked)
unfolding disconnect
disconnect-revoked agent_id now s h = elim (Option-cases (get agent_id s.agent_connections)) [
  | inl off ↦
      rw (off, disconnect)
        (rw (get-delete agent_id agent_id s.agent_connections, eq_refl agent_id) refl, h)
  | inr (live, on) ↦
      rw (on, disconnect)
        (
          rw
              (
                get-delete agent_id agent_id
                    (close_connection live.connection now s).agent_connections,
                eq_refl agent_id,
              )
              refl,
          close_connection-revoked live.connection now agent_id s h,
        )
]

is_revoked_agent-status : (a : RemoteAgentRecord) → a.status ≡ revoked → is_revoked_agent a ≡ true
is_revoked_agent-status a e = rw e refl

hello-revoked :
    (ext : External) (connection : ℕ) (hello : AgentHelloEnvelope) (now : ℕ) (s : ControlPlane)
    → status_of hello.agent_id s.store ≡ some revoked
    → handle_agent_hello ext connection hello now s ≡ refuse connection agent_not_found now s
unfolding handle_agent_hello
hello-revoked ext connection hello now s h =
    elim (Option-cases (get_agent hello.agent_id s.store)) [
      | inl missing ↦ rw (missing, handle_agent_hello) refl
      | inr (a, found) ↦
          let status : some a.status ≡ some revoked = rw found at h in
          let gone = is_revoked_agent-status a (ground (arith, status)) in
          elim (Option-cases a.public_key) [
            | inl keyless ↦ rw (found, keyless, handle_agent_hello) refl
            | inr (public_key, key) ↦ rw (found, key, gone, handle_agent_hello) refl
          ]
    ]

-- A revocation cuts an agent off: when it returns, the caller had the capability, the agent of the
-- record, if the store has it, is revoked, no connection is kept for it, the next action on the record
-- is refused with `AGENT_REVOKED`, and a hello of the agent is answered as one of an unknown agent.
pub revoke-cuts_off :
    (ext : External) (config : RemoteConfig) (principal : RemotePrincipal)
    (agent : RemoteAgentRecord) (now : ℕ) (s t : ControlPlane) (updated : RemoteAgentRecord)
    → is_some (get_agent agent.id s.store) ≡ true
    → revoke principal agent now s ≡ (returned updated, t)
    → (has_capability principal.capabilities (codes "agents.admin") ≡ true)
      × (status_of agent.id t.store ≡ some revoked)
      × (has agent.id t.agent_connections ≡ false)
      × ((tool : RemoteToolName) (args : Args) (action_id nonce : String) (later : ℕ)
            (u : ControlPlane)
          → (dispatch_action ext config principal updated tool
              (tool_capability tool)
              args
              action_id
              nonce
              later
              u).0
            ≡ thrown (failed agent_revoked 410))
      × ((connection : ℕ) (hello : AgentHelloEnvelope) (later : ℕ)
          → hello.agent_id ≡ agent.id
          → handle_agent_hello ext connection hello later t
            ≡ refuse connection agent_not_found later t)
unfolding revoke audit insert_audit dispatch_action handle_agent_hello disconnect get
    oaslananka_lab_mcp_ssh_t.StringMap.delete get_agent
revoke-cuts_off ext config principal agent now s t updated known e =
    elim (Bool-cases (has_capability principal.capabilities (codes "agents.admin"))) [
      | inr bad ↦ absurd (let g = rw (bad, revoke) at e in cc)
      | inl granted ↦
          let g = rw (granted, revoke) at e in
          let updated_is : record agent { status = revoked; updated_at = now } ≡ updated =
            ground (arith, ap (λ r. r.0) g) in
          let written : status_of agent.id
                (update_agent (record agent { status = revoked; updated_at = now }) s.store)
              ≡ some revoked =
            status-update_agent (record agent { status = revoked; updated_at = now }) s.store
            ∙ elim (Option-cases (get_agent agent.id s.store)) [
              | inl missing ↦ absurd (cc)
              | inr (a, found) ↦ rw found refl
            ] in
          let cut =
            disconnect-revoked agent.id now
              (record s {
                store = update_agent (record agent { status = revoked; updated_at = now }) s.store;
              })
              written in
          let off : has agent.id t.agent_connections ≡ false =
            ap (λ r. has agent.id r.1.agent_connections) (sym g) ∙ cut.0 in
          let gone : status_of agent.id t.store ≡ some revoked =
            ap (λ r. status_of agent.id r.1.store) (sym g) ∙ cut.1 in
          let flagged : is_revoked_agent updated ≡ true = rw (sym updated_is) refl in
          (
            granted,
            gone,
            off,
            λ tool args action_id nonce later u. rw (flagged, dispatch_action) refl,
            λ connection hello later same.
                hello-revoked ext connection hello later t (rw same gone),
          )
    ]

announce_policy-store :
    (ext : External) (agent : RemoteAgentRecord) (policy : AgentPolicy) (nonce : String) (now : ℕ)
    (s : ControlPlane)
    → (announce_policy ext agent policy nonce now s).store ≡ s.store
unfolding announce_policy send_json
announce_policy-store ext agent policy nonce now s = ground arith

-- The status that an update of a policy leaves is the one of the record that it was given, whatever the
-- store has by then: an update whose record was read before a revocation brings the agent back.
pub change_policy-status :
    (ext : External) (config : RemoteConfig) (principal : RemotePrincipal)
    (agent : RemoteAgentRecord) (patch : PolicyPatch) (nonce : String) (now : ℕ)
    (s t : ControlPlane) (updated : RemoteAgentRecord)
    → change_policy ext config principal agent patch nonce now s ≡ (returned updated, t)
    → status_of agent.id t.store ≡ map_option (λ a. agent.status) (get_agent agent.id s.store)
unfolding change_policy audit insert_audit get_agent
change_policy-status ext config principal agent patch nonce now s t updated e =
    elim (Bool-cases (has_capability principal.capabilities (codes "agents.admin"))) [
      | inr bad ↦ absurd (let g = rw (bad, change_policy) at e in cc)
      | inl granted ↦
          let g = rw (granted, change_policy) at e in
          ap (λ r. status_of agent.id r.1.store) (sym g)
          ∙ ap (status_of agent.id) (
              announce_policy-store ext agent
                (capped_policy config patch (agent.policy_version + 1)) nonce now _)
          ∙ status-update_agent _ s.store
    ]
