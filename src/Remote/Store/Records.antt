-- ===== src/Remote/Store/Records.antt =====
-- The agents, the actions and the audit events of `RemoteStore`, src/remote/store.ts.
use oaslananka_lab_mcp_ssh_t.Remote.Store.Types.{
  returned, raised, thrown, Reply, ActionRecord, AuditEvent, RemoteAgentRecord,
}
use oaslananka_lab_mcp_ssh_t.Remote.Store.Tables.{RemoteStore}
use oaslananka_lab_mcp_ssh_t.Remote.Store.Rows.{find, update_where, order_by, limit_rows}
use oaslananka_lab_mcp_ssh_t.Prelude.{
  map_option, ℕ, min, max, String, Bool, true, false, ◌&&◌, ◌||◌, Option, none, some, List, [], ◌∷◌,
  ◌++◌, map, ◌==◌, ltb, if◌then◌else◌, any, keep,
}

unfoldable pub insert_agent : RemoteAgentRecord → RemoteStore → Reply RemoteStore
insert_agent agent s =
    if any (λ a. a.id == agent.id || (a.user_id == agent.user_id && a.alias == agent.alias))
      s.agents
    then thrown raised
    else returned (record s { agents = s.agents ++ (agent ∷ []) })

-- The columns that `updateAgent` sets.
abbrev pub updated_row : RemoteAgentRecord → RemoteAgentRecord → RemoteAgentRecord
updated_row agent row = record row {
  alias = agent.alias;
  status = agent.status;
  public_key = agent.public_key;
  profile = agent.profile;
  policy = agent.policy;
  policy_version = agent.policy_version;
  host_metadata = agent.host_metadata;
  last_seen_at = agent.last_seen_at;
  updated_at = agent.updated_at;
}

-- The control plane never changes the alias of a row, so the unique pair of user and alias, which
-- an update could break, is not checked again.
unfoldable pub update_agent : RemoteAgentRecord → RemoteStore → RemoteStore
update_agent agent s = record s {
  agents = update_where (λ a. a.id == agent.id) (updated_row agent) s.agents;
}

-- An empty text reads as undefined.
unfoldable pub optional_row_string : Option String → Option String
optional_row_string none = none
optional_row_string (some value) = if value == "" then none else some value

unfoldable pub agent_from_row : RemoteAgentRecord → RemoteAgentRecord
agent_from_row row = record row { public_key = optional_row_string row.public_key }

unfoldable pub get_agent : String → RemoteStore → Option RemoteAgentRecord
get_agent agent_id s = map_option agent_from_row (find (λ a. a.id == agent_id) s.agents)

unfoldable pub get_agent_by_alias : String → String → RemoteStore → Option RemoteAgentRecord
get_agent_by_alias user_id alias s =
    map_option agent_from_row (find (λ a. a.user_id == user_id && a.alias == alias) s.agents)

pub list_agents_of : String → RemoteStore → List RemoteAgentRecord
list_agents_of user_id s =
    map agent_from_row
      (order_by (λ a b. ltb a.created_at b.created_at) (keep (λ a. a.user_id == user_id) s.agents))

unfoldable pub insert_action : ActionRecord → RemoteStore → Reply RemoteStore
insert_action action s =
    if any (λ a. a.id == action.id) s.actions
    then thrown raised
    else returned (record s { actions = s.actions ++ (action ∷ []) })

unfoldable pub update_action : ActionRecord → RemoteStore → RemoteStore
update_action action s = record s {
  actions =
      update_where (λ a. a.id == action.id)
        (λ a. record a {
          status = action.status;
          completed_at = action.completed_at;
          result = action.result;
          error_code = action.error_code;
        })
        s.actions;
}

unfoldable pub insert_audit : AuditEvent → RemoteStore → RemoteStore
insert_audit event s = record s { audit_events = s.audit_events ++ (event ∷ []) }

abbrev is_value : Option String → String → Bool
is_value none value = false
is_value (some text) value = text == value

pub of_agent : Option String → AuditEvent → Bool
of_agent none event = true
of_agent (some agent_id) event = if agent_id == "" then true else is_value event.agent_id agent_id

pub list_audit : String → Option String → ℕ → RemoteStore → List AuditEvent
list_audit user_id agent_id limit s = limit_rows (min (max limit 1) 200) (
    order_by (λ a b. ltb b.created_at a.created_at)
      (keep (λ e. is_value e.user_id user_id && of_agent agent_id e) s.audit_events))
