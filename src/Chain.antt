-- ===== src/Chain.antt =====
-- The chain of judgment events: canonical JSON, the hashes, the validator of one event and the walk
-- over a chain.
pub mod CanonicalJson
pub mod Hasher
pub mod Validator
pub mod Walker
