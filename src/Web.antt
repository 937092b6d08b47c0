-- ===== src/Web.antt =====
-- The web service: the endpoints by which a human answers an approval.
pub mod Approvals
pub mod Execution
