-- ===== src/Remote/ControlPlane/Messages.antt =====
-- The text messages of an agent's socket, `handleAgentMessage` of src/remote/control-plane.ts with
-- the handler of its failures in `handleUpgrade`.
use oaslananka_lab_mcp_ssh_t.Remote.ControlPlane.State.{AgentHelloEnvelope, ControlPlane, External}
use oaslananka_lab_mcp_ssh_t.Remote.Store.Types.{
  returned, thrown, internal_error, ActionResultEnvelope, Reply,
}
use oaslananka_lab_mcp_ssh_t.Remote.ControlPlane.Sockets.{handle_agent_hello, refuse}
use oaslananka_lab_mcp_ssh_t.Remote.ControlPlane.Actions.{handle_action_result}
use oaslananka_lab_mcp_ssh_t.Prelude.{ℕ}

-- A message as its parsing and its schemas of zod see it; `thrown` is an envelope that its schema
-- refuses.
pub data AgentMessage : Type 0 where
  not_json : AgentMessage
  not_an_object : AgentMessage
  agent_hello : Reply AgentHelloEnvelope → AgentMessage
  action_result : Reply ActionResultEnvelope → AgentMessage
  unknown_type : AgentMessage

-- What throws ends in the same message and the same close as an unknown type.
unfoldable pub handle_agent_message : External → ℕ → AgentMessage → ℕ → ControlPlane → ControlPlane
handle_agent_message ext connection not_json now s = refuse connection internal_error now s
handle_agent_message ext connection not_an_object now s = refuse connection internal_error now s
handle_agent_message ext connection (agent_hello (thrown failure)) now s =
    refuse connection internal_error now s
handle_agent_message ext connection (agent_hello (returned envelope)) now s =
    handle_agent_hello ext connection envelope now s
handle_agent_message ext connection (action_result (thrown failure)) now s =
    refuse connection internal_error now s
handle_agent_message ext connection (action_result (returned envelope)) now s =
    handle_action_result ext connection envelope now s
handle_agent_message ext connection unknown_type now s = refuse connection internal_error now s
