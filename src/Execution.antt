-- ===== src/Execution.antt =====
-- core/execution and core/contracts: the execution envelope, the executor, the guard against
-- replays, and an adapter.
pub mod Exceptions
pub mod Floats
pub mod Envelope
pub mod Executor
pub mod Permits
pub mod Idempotency
pub mod NoopAdapter
