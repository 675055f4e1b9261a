-- ===== src/Remote/ControlPlane/Statuses.antt =====
-- The status of an agent in the store, src/remote/store.ts, over an update of a row.
use oaslananka_lab_mcp_ssh_t.Remote.Store.Records.{
  updated_row, agent_from_row, get_agent, update_agent,
}
use oaslananka_lab_mcp_ssh_t.Remote.Store.Rows.{update_where, find}
use oaslananka_lab_mcp_ssh_t.Remote.Store.Tables.{RemoteStore}
use oaslananka_lab_mcp_ssh_t.Remote.Store.Types.{RemoteAgentRecord, AgentStatus}
use oaslananka_lab_mcp_ssh_t.Remote.ControlPlane.Permitted.{find-holds}
use oaslananka_lab_mcp_ssh_t.Prelude.{
  String, ◌≡◌, refl, ◌∙◌, inl, inr, false, Option, some, map_option, List, [], ◌∷◌, arith, ◌==◌,
  eq_iff, Bool-cases, Option-cases,
}

-- The status that the store has for an agent.
abbrev pub status_of : String → RemoteStore → Option AgentStatus
status_of agent_id store = map_option (λ a. a.status) (get_agent agent_id store)

find-update :
    (agent : RemoteAgentRecord) (rows : List RemoteAgentRecord)
    → find (λ a. a.id == agent.id) (update_where (λ a. a.id == agent.id) (updated_row agent) rows)
      ≡ map_option (updated_row agent) (find (λ a. a.id == agent.id) rows)
unfolding find update_where
find-update agent [] = refl
find-update agent (row ∷ rows) = elim (Bool-cases (row.id == agent.id)) [
  | inl same ↦ rw (same, same) refl
  | inr other ↦ rw (other, other) (find-update agent rows)
]

find-update_other :
    (agent : RemoteAgentRecord) (k : String) (rows : List RemoteAgentRecord)
    → (agent.id == k) ≡ false
    → find (λ a. a.id == k) (update_where (λ a. a.id == agent.id) (updated_row agent) rows)
      ≡ find (λ a. a.id == k) rows
unfolding find update_where
find-update_other agent k [] apart = refl
find-update_other agent k (row ∷ rows) apart = elim (Bool-cases (row.id == agent.id)) [
  | inl same ↦
      let key : row.id ≡ agent.id = (eq_iff row.id agent.id).0 same in
      let off : (row.id == k) ≡ false = rw key apart in
      rw (same, off) (find-update_other agent k rows apart)
  | inr other ↦ elim (Bool-cases (row.id == k)) [
    | inl here ↦ rw (other, here) refl
    | inr off ↦ rw (other, off) (find-update_other agent k rows apart)
  ]
]

pub status-update_agent :
    (agent : RemoteAgentRecord) (store : RemoteStore)
    → status_of agent.id (update_agent agent store)
      ≡ map_option (λ a. agent.status) (get_agent agent.id store)
unfolding update_agent get_agent agent_from_row
status-update_agent agent store =
    rw (find-update agent store.agents)
      (elim (Option-cases (find (λ a. a.id == agent.id) store.agents)) [
        | inl missing ↦ rw missing refl
        | inr (row, found) ↦ rw found refl
      ])

pub status-update_other :
    (agent : RemoteAgentRecord) (k : String) (store : RemoteStore)
    → (agent.id == k) ≡ false
    → status_of k (update_agent agent store) ≡ status_of k store
unfolding update_agent get_agent
status-update_other agent k store apart = rw (find-update_other agent k store.agents apart) refl

pub get_agent-id :
    (k : String) (store : RemoteStore) (a : RemoteAgentRecord)
    → get_agent k store ≡ some a
    → a.id ≡ k
unfolding get_agent agent_from_row
get_agent-id k store a e = elim (Option-cases (find (λ r. r.id == k) store.agents)) [
  | inl bad ↦ absurd (let g = rw (bad, get_agent) at e in cc)
  | inr (row, found) ↦
      let holds = find-holds (λ r. r.id == k) store.agents row found in
      let g = rw (found, get_agent) at e in
      let same : a.id ≡ row.id = ground (arith, g) in same ∙ (eq_iff row.id k).0 holds
]
