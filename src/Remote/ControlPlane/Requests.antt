-- ===== src/Remote/ControlPlane/Requests.antt =====
-- The requests for actions among the messages of src/remote/control-plane.ts.
use oaslananka_lab_mcp_ssh_t.Remote.ControlPlane.State.{
  has_number, RemoteConfig, audit, External, ControlPlane, Message, ActionRequestEnvelope,
  agent_ready, error_message, policy_update, action_request,
}
use oaslananka_lab_mcp_ssh_t.Remote.ControlPlane.Sockets.{
  close_connection, send_json, on_close, run_close_handlers,
}
use oaslananka_lab_mcp_ssh_t.Remote.ControlPlane.Enroll.{insert_pending, create_token}
use oaslananka_lab_mcp_ssh_t.Remote.ControlPlane.Policies.{
  revoke, disconnect, announce_policy, change_policy,
}
use oaslananka_lab_mcp_ssh_t.Remote.Store.Types.{Args, RemotePrincipal, RemoteAgentRecord}
use oaslananka_lab_mcp_ssh_t.StringMap.{get}
use oaslananka_lab_mcp_ssh_t.Remote.AgentPolicy.{PolicyPatch, AgentPolicy}
use oaslananka_lab_mcp_ssh_t.Remote.Scopes.{has_capability}
use oaslananka_lab_mcp_ssh_t.Text.{codes}
use oaslananka_lab_mcp_ssh_t.Prelude.{
  ℕ, String, ◌≡◌, refl, ap, ◌∙◌, ◌⊎◌, inl, inr, true, List, [], ◌∷◌, ◌++◌, append-nil, arith, eqb,
  Bool-cases, Option-cases,
}

-- The messages that ask an agent for an action, with the connections that they are sent on.
abbrev pub requests : List (ℕ × Message) → List (ℕ × ActionRequestEnvelope)
requests [] = []
requests ((connection, agent_ready agent_id policy) ∷ rest) = requests rest
requests ((connection, error_message code) ∷ rest) = requests rest
requests ((connection, policy_update envelope) ∷ rest) = requests rest
requests ((connection, action_request envelope) ∷ rest) = (connection, envelope) ∷ requests rest

requests-append : (xs ys : List (ℕ × Message)) → requests (xs ++ ys) ≡ requests xs ++ requests ys
requests-append [] ys = refl
requests-append ((connection, agent_ready agent_id policy) ∷ rest) ys = requests-append rest ys
requests-append ((connection, error_message code) ∷ rest) ys = requests-append rest ys
requests-append ((connection, policy_update envelope) ∷ rest) ys = requests-append rest ys
requests-append ((connection, action_request envelope) ∷ rest) ys =
    ap (λ l. (connection, envelope) ∷ l) (requests-append rest ys)

-- The request is the one that is new, unless the connection is closed, which sends nothing.
abbrev pub Sends : ℕ → ActionRequestEnvelope → ControlPlane → ControlPlane → Type 0
Sends connection envelope s t =
    ((has_number s.closed connection ≡ true) × (requests t.messages ≡ requests s.messages))
    ⊎ (requests t.messages ≡ requests s.messages ++ ((connection, envelope) ∷ []))

pub send_json-Sends :
    (connection : ℕ) (envelope : ActionRequestEnvelope) (s : ControlPlane)
    → Sends connection envelope s (send_json connection (action_request envelope) s)
unfolding send_json
send_json-Sends connection envelope s = elim (Bool-cases (has_number s.closed connection)) [
  | inl gone ↦ inl (gone, rw (gone, send_json) refl)
  | inr there ↦ inr (
      rw (there, send_json)
        (requests-append s.messages ((connection, action_request envelope) ∷ [])))
]

on_close-messages :
    (connection : ℕ) (agent : RemoteAgentRecord) (now : ℕ) (s : ControlPlane)
    → (on_close connection agent now s).messages ≡ s.messages
unfolding on_close audit
on_close-messages connection agent now s = ground arith

run_close_handlers-messages :
    (connection now : ℕ) (handlers : List (ℕ × RemoteAgentRecord)) (s : ControlPlane)
    → (run_close_handlers connection now handlers s).messages ≡ s.messages
unfolding run_close_handlers
run_close_handlers-messages connection now [] s = refl
run_close_handlers-messages connection now ((owner, agent) ∷ handlers) s =
    elim (Bool-cases (eqb owner connection)) [
      | inl own ↦
          rw (own, run_close_handlers)
            (run_close_handlers-messages connection now handlers (on_close connection agent now s)
              ∙ on_close-messages connection agent now s)
      | inr other ↦
          rw (other, run_close_handlers) (run_close_handlers-messages connection now handlers s)
    ]

close_connection-messages :
    (connection now : ℕ) (s : ControlPlane)
    → (close_connection connection now s).messages ≡ s.messages
unfolding close_connection
close_connection-messages connection now s = elim (Bool-cases (has_number s.closed connection)) [
  | inl gone ↦ rw (gone, close_connection) refl
  | inr there ↦
      rw (there, close_connection) (run_close_handlers-messages connection now s.close_handlers _)
]

pub create_token-messages :
    (ext : External) (config : RemoteConfig) (principal : RemotePrincipal) (args : Args)
    (agent_id token token_id : String) (now : ℕ) (s : ControlPlane)
    → (create_token ext config principal args agent_id token token_id now s).1.messages ≡ s.messages
unfolding create_token insert_pending audit
create_token-messages ext config principal args agent_id token token_id now s = ground arith

announce_policy-requests :
    (ext : External) (agent : RemoteAgentRecord) (policy : AgentPolicy) (nonce : String) (now : ℕ)
    (s : ControlPlane)
    → requests (announce_policy ext agent policy nonce now s).messages ≡ requests s.messages
unfolding announce_policy send_json
announce_policy-requests ext agent policy nonce now s =
    elim (Option-cases (get agent.id s.agent_connections)) [
      | inl off ↦ rw (off, announce_policy) refl
      | inr (live, on) ↦ elim (Bool-cases (has_number s.closed live.connection)) [
        | inl gone ↦ rw (on, announce_policy) (rw (gone, send_json) refl)
        | inr there ↦
            rw (on, announce_policy)
              (rw (there, send_json)
                (requests-append s.messages _ ∙ append-nil (requests s.messages)))
      ]
    ]

pub change_policy-requests :
    (ext : External) (config : RemoteConfig) (principal : RemotePrincipal)
    (agent : RemoteAgentRecord) (patch : PolicyPatch) (nonce : String) (now : ℕ) (s : ControlPlane)
    → requests (change_policy ext config principal agent patch nonce now s).1.messages
      ≡ requests s.messages
unfolding change_policy audit
change_policy-requests ext config principal agent patch nonce now s =
    elim (Bool-cases (has_capability principal.capabilities (codes "agents.admin"))) [
      | inr denied ↦ rw (denied, change_policy) refl
      | inl granted ↦ rw (granted, change_policy) (announce_policy-requests ext agent _ nonce now _)
    ]

disconnect-messages :
    (agent_id : String) (now : ℕ) (s : ControlPlane)
    → (disconnect agent_id now s).messages ≡ s.messages
unfolding disconnect
disconnect-messages agent_id now s = elim (Option-cases (get agent_id s.agent_connections)) [
  | inl off ↦ rw (off, disconnect) refl
  | inr (live, on) ↦ rw (on, disconnect) (close_connection-messages live.connection now s)
]

pub revoke-messages :
    (principal : RemotePrincipal) (agent : RemoteAgentRecord) (now : ℕ) (s : ControlPlane)
    → (revoke principal agent now s).1.messages ≡ s.messages
unfolding revoke audit
revoke-messages principal agent now s =
    elim (Bool-cases (has_capability principal.capabilities (codes "agents.admin"))) [
      | inr denied ↦ rw (denied, revoke) refl
      | inl granted ↦ rw (granted, revoke) (disconnect-messages agent.id now _)
    ]
