-- ===== src/Remote/ControlPlane/Tests.antt =====
-- Theorems on src/remote/control-plane.ts at concrete inputs.
use oaslananka_lab_mcp_ssh_t.Remote.ControlPlane.Stories.{
  called_state, shell_request, shell_tokens, revoked_box, patched_state, patched_box, nonces,
  token_row, revoked_state, no_patch, box, ext, config, admin, args, draws, host, hello, result,
  created, enrolled, connected, waiting_state, answered, entry, box_enrolled,
}
use oaslananka_lab_mcp_ssh_t.Remote.ControlPlane.Steps.{
  enrolls, greets, answers, calls, done, next, Steps,
}
use oaslananka_lab_mcp_ssh_t.Remote.Store.Types.{
  Args, AgentStatus, RemoteToolName, revoked, raised, failed, agent_revoked, agent_not_found,
  create_enrollment_token, run_shell, returned, thrown, Failure,
}
use oaslananka_lab_mcp_ssh_t.Remote.Scopes.{
  capabilities_of, add_capabilities, capabilities_from_scopes, has_capability,
}
use oaslananka_lab_mcp_ssh_t.Remote.ControlPlane.Tools.{
  awaited, call_agent_tool, resolve_agent, require_agent, run_tool, call_remote_tool,
  tool_capability,
}
use oaslananka_lab_mcp_ssh_t.Remote.ControlPlane.Settled.{is_stored, weight, count_replies, Move}
use oaslananka_lab_mcp_ssh_t.Remote.ControlPlane.State.{
  AgentHelloEnvelope, ControlPlane, drop_transactions, prune_connections, prune_hello_nonces,
  cleanup_ephemeral_state, hash_secret, audit, new_control_plane,
}
use oaslananka_lab_mcp_ssh_t.Remote.ControlPlane.Enroll.{
  enroll_agent, parse_agent_host_metadata, insert_pending, create_token, handle_agent_enroll,
}
use oaslananka_lab_mcp_ssh_t.Remote.ControlPlane.Actions.{
  dispatch_action, on_action_timeout, handle_action_result,
}
use oaslananka_lab_mcp_ssh_t.Remote.ControlPlane.Quiet.{acts}
use oaslananka_lab_mcp_ssh_t.Remote.Store.Tables.{
  token_table, mark_enrollment_token_used, get_enrollment_token_by_hash, insert_enrollment_token,
}
use oaslananka_lab_mcp_ssh_t.Remote.ControlPlane.Once.{handle_agent_enroll-once}
use oaslananka_lab_mcp_ssh_t.Remote.ControlPlane.Genuine.{
  handle_action_result-IsGenuine_iff, IsGenuine,
}
use oaslananka_lab_mcp_ssh_t.Remote.Store.Rows.{update_where, find}
use oaslananka_lab_mcp_ssh_t.StringMap.{Distinct, delete, get, set, has}
use oaslananka_lab_mcp_ssh_t.Remote.ControlPlane.Moves.{Step-Move}
use oaslananka_lab_mcp_ssh_t.Remote.ControlPlane.Answered.{
  Steps-answered, on_action_timeout-answered,
}
use oaslananka_lab_mcp_ssh_t.Remote.Store.Redeem.{
  spec_redeem, update_unused, mark_used, find_hash, has_row_id, insert_row, ledger,
}
use oaslananka_lab_mcp_ssh_t.Remote.Store.Records.{
  insert_action, optional_row_string, update_agent, get_agent, agent_from_row, get_agent_by_alias,
  insert_audit, insert_agent,
}
use oaslananka_lab_mcp_ssh_t.Remote.ControlPlane.Install.{
  trim_end_string, trim_start_string, trim_string, granted_profile, enroll_command, install_command,
}
use oaslananka_lab_mcp_ssh_t.Text.{codes, text_eq, is_space}
use oaslananka_lab_mcp_ssh_t.Remote.ControlPlane.Sockets.{
  set_offline, on_close, run_close_handlers, refuse, close_connection, send_json, accept_hello,
  verify_hello, handle_agent_hello,
}
use oaslananka_lab_mcp_ssh_t.Remote.ControlPlane.Nonces.{
  agent_nonce_ttl_ms, max_agent_connection_nonces, has_seen_nonce, drop_oldest, remember_nonce,
  prune_nonce_window,
}
use oaslananka_lab_mcp_ssh_t.Remote.AgentPolicy.{profile_capabilities, create_agent_policy}
use oaslananka_lab_mcp_ssh_t.Remote.ControlPlane.Revoked.{revoke-cuts_off, change_policy-status}
use oaslananka_lab_mcp_ssh_t.Remote.Store.Redeemed.{mark_used-Agrees, Agrees}
use oaslananka_lab_mcp_ssh_t.Remote.ControlPlane.Policies.{
  capped_policy, announce_policy, disconnect, change_policy, revoke,
}
use oaslananka_lab_mcp_ssh_t.Remote.ControlPlane.Aliases.{create_token-revoked}
use oaslananka_lab_mcp_ssh_t.Remote.ControlPlane.NonceWindow.{
  remember_nonce-seen, remember_nonce-le,
}
use oaslananka_lab_mcp_ssh_t.Remote.ControlPlane.Statuses.{status_of}
use oaslananka_lab_mcp_ssh_t.Remote.ControlPlane.Served.{handle_mcp-IsServed, IsServed}
use oaslananka_lab_mcp_ssh_t.Remote.ControlPlane.Mcp.{
  called, handle_rpc, handle_post, handle_method, handle_mcp,
}
use oaslananka_lab_mcp_ssh_t.Remote.ControlPlane.Api.{
  principal_from_payload, split_string, bearer_of, extract_bearer_token, verify_access_token,
  authenticate,
}
use oaslananka_lab_mcp_ssh_t.HostKeys.KnownHosts.{split_on, words}
use oaslananka_lab_mcp_ssh_t.Policy.Engine.{unique_from}
use oaslananka_lab_mcp_ssh_t.Prelude.{
  ℕ, ◌+◌, ◌≤◌, String, ◌≡◌, refl, ◌↔◌, true, false, none, some, map_option, [], ◌∷◌, ◌++◌, arith,
  ltb, is_some, length, keep,
}

-- The runs of the agent.
agent_runs :
    (has "act" waiting_state.pending_actions ≡ true)
    × (handle_agent_enroll ext (some "enrol") (some "key") (some host) 1 created
        ≡ (returned box_enrolled, enrolled))
    × (get "act" waiting_state.pending_actions ≡ some entry)
    × (call_remote_tool ext config admin run_shell args draws 3 connected
        ≡ (returned (awaited "act"), waiting_state))
    × (is_some (get_agent "agt" connected.store) ≡ true)
    × (revoke admin box 5 connected ≡ (returned revoked_box, revoked_state))
    × (get_agent_by_alias "github:1" "box" revoked_state.store ≡ some revoked_box)
    × (change_policy ext config admin box no_patch "n" 6 revoked_state
        ≡ (returned patched_box, patched_state))
unfolding revoke change_policy disconnect close_connection run_close_handlers on_close set_offline
    announce_policy capped_policy call_remote_tool run_tool create_token insert_pending insert_agent
    insert_enrollment_token install_command enroll_command granted_profile trim_string
    trim_start_string trim_end_string is_space get_agent_by_alias agent_from_row find audit
    insert_audit hash_secret insert_row has_row_id find_hash handle_agent_enroll
    parse_agent_host_metadata get_enrollment_token_by_hash enroll_agent get_agent
    mark_enrollment_token_used mark_used update_unused update_agent update_where handle_agent_hello
    verify_hello cleanup_ephemeral_state prune_hello_nonces prune_connections drop_transactions keep
    prune_nonce_window accept_hello get set delete remember_nonce drop_oldest send_json
    tool_capability text_eq optional_row_string require_agent resolve_agent call_agent_tool
    dispatch_action insert_action has_capability create_agent_policy profile_capabilities
agent_runs = (refl, refl, refl, refl, refl, refl, refl, refl)

nonces-Distinct : Distinct nonces
unfolding get
nonces-Distinct = (refl, (refl, tt))

fresh_nonce : (has_seen_nonce nonces "c" 600).0 ≡ false
unfolding has_seen_nonce prune_nonce_window keep get
fresh_nonce = refl

admin_granted : has_capability admin.capabilities (codes "agents.admin") ≡ true
unfolding has_capability text_eq
admin_granted = refl

alias_given : trim_string "box" ≡ "" → ⊥
unfolding trim_string trim_start_string trim_end_string is_space
alias_given e = cc

reached_created : Steps ext config new_control_plane created
reached_created = next done (calls admin create_enrollment_token args draws 0)

reached_waiting : Steps ext config new_control_plane waiting_state
reached_waiting =
    next
      (next (next reached_created (enrolls (some "enrol") (some "key") (some host) 1))
        (greets 7 hello 2))
      (calls admin run_shell args draws 3)

Steps-answered_example :
    count_replies "act" answered.replies + weight (has "act" answered.pending_actions)
    ≤ weight (is_stored "act" answered.store.actions)
Steps-answered_example =
    Steps-answered ext config answered (next reached_waiting (answers 7 result 4)) "act"

Step-Move_example : Move (acts waiting_state) (acts answered)
Step-Move_example = Step-Move ext config waiting_state answered (answers 7 result 4)

on_action_timeout-answered_example :
    (count_replies "act" (on_action_timeout "act" 9 answered).replies ≡ 1)
    × (has "act" (on_action_timeout "act" 9 answered).pending_actions ≡ false)
on_action_timeout-answered_example =
    on_action_timeout-answered ext config "act" 9 waiting_state answered reached_waiting
      agent_runs.0 (next done (answers 7 result 4))

handle_agent_enroll-once_example :
    (failure : Failure) × ((handle_agent_enroll ext
        (some "enrol")
        (some "key")
        (some host)
        9
        connected).0
      ≡ thrown failure)
handle_agent_enroll-once_example =
    handle_agent_enroll-once ext config (some "enrol") (some "key") (some "key") (some host)
      (some host) 1 9 created enrolled connected box_enrolled reached_created agent_runs.1
      (next done (greets 7 hello 2))

handle_action_result-IsGenuine_iff_example :
    ((handle_action_result ext 7 result 4 waiting_state).replies
      ≡ waiting_state.replies ++ (("act", returned result) ∷ []))
    ↔ IsGenuine ext 7 result entry.action 4 waiting_state
handle_action_result-IsGenuine_iff_example =
    handle_action_result-IsGenuine_iff ext 7 result 4 waiting_state entry agent_runs.2

remember_nonce-le_example : length (remember_nonce nonces "c" 600) ≤ max_agent_connection_nonces
remember_nonce-le_example = remember_nonce-le nonces "c" 600 nonces-Distinct

remember_nonce-seen_example :
    Distinct (remember_nonce nonces "c" 600)
    × ((later : ℕ)
        → (has_seen_nonce (remember_nonce nonces "c" 600) "c" later).0
          ≡ ltb later (600 + agent_nonce_ttl_ms))
remember_nonce-seen_example =
    remember_nonce-seen nonces "c" 600 nonces-Distinct (omega arith) fresh_nonce

revoke-cuts_off_example :
    (has_capability admin.capabilities (codes "agents.admin") ≡ true)
    × (status_of "agt" revoked_state.store ≡ some revoked)
    × (has "agt" revoked_state.agent_connections ≡ false)
    × ((tool : RemoteToolName) (args : Args) (action_id nonce : String) (later : ℕ)
          (u : ControlPlane)
        → (dispatch_action ext config admin revoked_box tool
            (tool_capability tool)
            args
            action_id
            nonce
            later
            u).0
          ≡ thrown (failed agent_revoked 410))
    × ((connection : ℕ) (hello : AgentHelloEnvelope) (later : ℕ)
        → hello.agent_id ≡ "agt"
        → handle_agent_hello ext connection hello later revoked_state
          ≡ refuse connection agent_not_found later revoked_state)
revoke-cuts_off_example =
    revoke-cuts_off ext config admin box 5 connected revoked_state revoked_box agent_runs.4
      agent_runs.5

change_policy-status_example :
    status_of "agt" patched_state.store
    ≡ map_option (λ a. AgentStatus.pending) (get_agent "agt" revoked_state.store)
change_policy-status_example =
    change_policy-status ext config admin box no_patch "n" 6 revoked_state patched_state patched_box
      agent_runs.7

create_token-revoked_example :
    create_token ext config admin args "agt2" "enrol2" "enr2" 9 revoked_state
    ≡ (thrown raised, revoked_state)
unfolding trim_string trim_end_string trim_start_string is_space
create_token-revoked_example =
    create_token-revoked ext config admin args "agt2" "enrol2" "enr2" 9 revoked_state revoked_box
      admin_granted (λ e. alias_given e) agent_runs.6 refl

mark_used-Agrees_example :
    Agrees token_table
      (mark_used token_table "b" 7 (token_row "a" (some 3) ∷ token_row "b" none ∷ []))
      (spec_redeem "b" (ledger token_table (token_row "a" (some 3) ∷ token_row "b" none ∷ [])))
mark_used-Agrees_example =
    mark_used-Agrees token_table "b" 7 (token_row "a" (some 3) ∷ token_row "b" none ∷ [])
      (refl, (refl, tt))

shell_run :
    handle_mcp ext shell_tokens config shell_request draws 3 connected
    ≡ (returned (called (awaited "act")), called_state)
unfolding revoke change_policy disconnect close_connection run_close_handlers on_close set_offline
    announce_policy capped_policy call_remote_tool run_tool create_token insert_pending insert_agent
    insert_enrollment_token install_command enroll_command granted_profile trim_string
    trim_start_string trim_end_string is_space get_agent_by_alias agent_from_row find audit
    insert_audit hash_secret insert_row has_row_id find_hash handle_agent_enroll
    parse_agent_host_metadata get_enrollment_token_by_hash enroll_agent get_agent
    mark_enrollment_token_used mark_used update_unused update_agent update_where handle_agent_hello
    verify_hello cleanup_ephemeral_state prune_hello_nonces prune_connections drop_transactions keep
    prune_nonce_window accept_hello get set delete remember_nonce drop_oldest send_json
    tool_capability text_eq optional_row_string require_agent resolve_agent call_agent_tool
    dispatch_action insert_action has_capability create_agent_policy profile_capabilities handle_mcp
    handle_method handle_post handle_rpc authenticate verify_access_token extract_bearer_token
    bearer_of split_string principal_from_payload words split_on capabilities_from_scopes
    add_capabilities capabilities_of unique_from
shell_run = refl

handle_mcp-IsServed_example :
    IsServed ext shell_tokens config shell_request 3 connected "act" called_state
handle_mcp-IsServed_example =
    handle_mcp-IsServed ext shell_tokens config draws 3 connected "act" called_state shell_request
      shell_run
