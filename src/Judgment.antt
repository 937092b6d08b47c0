-- ===== src/Judgment.antt =====
-- core/judgment: the life of a DPA (decision preparation artefact) from its creation to its
-- application, the repositories that hold DPAs, and the approval queue.
pub mod Models
pub mod Transitions
pub mod Lifecycle
pub mod Soundness
pub mod Repo
pub mod Composer
pub mod Service
pub mod Approvals
