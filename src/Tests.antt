-- ===== src/Tests.antt =====
-- Concrete inputs: tests by evaluation, and the theorems at inputs that meet their hypotheses.
mod Scene
mod Judgment
mod Engine
mod Governance
mod Learning
mod Policy
mod Chain
mod Patches
mod Override
mod Web
mod Cli
mod Actions
mod Proposals
mod Storage
