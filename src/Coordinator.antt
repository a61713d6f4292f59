-- ===== src/Coordinator.antt =====
-- The control plane: packages/sdk/src/interlatent/coordinator/.
pub mod Data
pub mod Routing
pub mod Persistence
pub mod Credentials
pub mod Nodes
pub mod Boxes
pub mod Environments
pub mod Sessions
pub mod Teleop
pub mod Poll
pub mod Revocation
pub mod Tokens
pub mod Answers
pub mod Acceptance
pub mod Terms
pub mod Crash
pub mod Invariant
pub mod History
pub mod Server
mod Examples
