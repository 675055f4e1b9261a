-- ===== src/Remote.antt =====
-- The remote agents, src/remote: the scopes of a token, the policy of an agent, the bounds on
-- what it returns, the tables of the control plane and the control plane itself.
pub mod Scopes
pub mod AgentPolicy
pub mod Output
pub mod Store
pub mod ControlPlane
mod Tests
