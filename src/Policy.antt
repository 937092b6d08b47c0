-- ===== src/Policy.antt =====
-- The policies that turn a decision of the engine into the next one.
pub mod Decision
pub mod State
pub mod Cooldown
pub mod V02
pub mod V03
pub mod Escalation
pub mod V01
pub mod Recommendations
pub mod Suppression
