-- ===== src/Override.antt =====
-- The audit chain of manual overrides: the schema of an event and the verification of the chain.
pub mod Schema
pub mod Chain
