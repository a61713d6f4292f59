-- ===== src/Node.antt =====
-- The node: packages/sdk/src/interlatent/node/.
pub mod Daemon
