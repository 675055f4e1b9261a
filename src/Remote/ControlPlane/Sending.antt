-- ===== src/Remote/ControlPlane/Sending.antt =====
-- When a call of a remote tool of src/remote/control-plane.ts sends an agent a request.
use oaslananka_lab_mcp_ssh_t.Remote.Store.Types.{Reply, returned}
use oaslananka_lab_mcp_ssh_t.Remote.ControlPlane.Tools.{ToolResult, awaited}
use oaslananka_lab_mcp_ssh_t.Remote.ControlPlane.State.{ControlPlane}
use oaslananka_lab_mcp_ssh_t.Remote.ControlPlane.Requests.{requests}
use oaslananka_lab_mcp_ssh_t.Prelude.{String, ◌≡◌, ◌⊎◌}

-- The call waits for an action, or sends no request.
abbrev WaitsOrQuiet : ControlPlane → Reply ToolResult × ControlPlane → Type 0
WaitsOrQuiet s r =
    ((id : String) × (r.0 ≡ returned (awaited id))) ⊎ (requests r.1.messages ≡ requests s.messages)
