-- ===== src/Actions.antt =====
-- core/C_action: from a receipt to a plan, its queue item and its processing, behind the gate of
-- core/contracts/orchestrator.py.
pub mod Authorization
pub mod Gate
pub mod Plan
pub mod Queue
