-- ===== src/Remote/ControlPlane.antt =====
-- The remote control plane, src/remote/control-plane.ts: its memory of nonces, its state, the OAuth
-- flow, the enrolment of agents, the messages of an agent and the actions that it is sent.
pub mod Nonces
pub mod NonceWindow
pub mod State
pub mod OAuth
pub mod Token
pub mod Sockets
pub mod Actions
pub mod Install
pub mod Enroll
pub mod Policies
pub mod Tools
pub mod Steps
pub mod Quiet
pub mod Settled
pub mod Calls
pub mod Moves
pub mod Answered
pub mod Secrets
pub mod Redemption
pub mod Once
pub mod Genuine
pub mod Requests
pub mod Permitted
pub mod Sending
pub mod Login
pub mod Statuses
pub mod Revoked
pub mod Aliases
pub mod Messages
pub mod Api
pub mod Mcp
pub mod ReadOnly
pub mod Served
mod Stories
mod RequestTests
mod Tests
