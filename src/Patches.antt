-- ===== src/Patches.antt =====
-- Patches of policies: JSON pointers, patches, the store of policy versions, and the approvals.
pub mod Pointer
pub mod Document
pub mod Patch
pub mod Store
pub mod Approval
pub mod Flows
