-- ===== src/Behaviors.antt =====
-- packages/sdk/src/interlatent/behaviors/: who may drive a robot's bus.
pub mod Arbitration
pub mod Exclusion
