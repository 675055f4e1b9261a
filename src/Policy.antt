-- ===== src/Policy.antt =====
-- The policy engine, src/policy.ts and src/safety.ts, by its parts.
pub mod Paths
pub mod Ports
pub mod Safety
pub mod Engine
pub mod Evaluate
