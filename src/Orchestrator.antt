-- ===== src/Orchestrator.antt =====
-- The orchestrator of core/orchestrator: who hears of a decision.
pub mod Routing
pub mod Delivery
