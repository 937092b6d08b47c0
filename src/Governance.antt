-- ===== src/Governance.antt =====
-- core/governance: policy proposals, their validation, and their evaluation by the approval queue.
pub mod Proposal
pub mod HumanGate
pub mod Validator
pub mod Queue
pub mod Eligibility
pub mod Replay
