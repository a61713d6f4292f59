-- ===== src/Client.antt =====
-- The node's inference client: packages/sdk/src/interlatent/inference/client/.
pub mod ActionSchedule
pub mod TickSpool
pub mod Cooldown
pub mod Uplink
pub mod ControlLoop
