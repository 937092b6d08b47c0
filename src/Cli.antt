-- ===== src/Cli.antt =====
-- The command lines of cli/.
pub mod Quarantine
