-- ===== src/Learning.antt =====
-- core/learning_os: the producer of policy proposals.
pub mod RateLimiter
pub mod Window
pub mod Bound
pub mod Reference
pub mod Emitter
pub mod Emission
pub mod Proposals
