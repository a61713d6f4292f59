-- ===== src/Relay.antt =====
-- The teleop relay: packages/sdk/src/interlatent/coordinator/relay_core.py and relay.py.
pub mod Registry
pub mod Streams
pub mod Connection
pub mod Bounds
pub mod Forwarding
mod Examples
