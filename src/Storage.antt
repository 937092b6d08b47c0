-- ===== src/Storage.antt =====
-- infra/storage: logs of JSON lines.
pub mod ApprovalQueue
