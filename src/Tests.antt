-- ===== src/Tests.antt =====
-- Runs of the definitions at concrete inputs, and the theorems applied to them.
pub mod Text
pub mod Traps
pub mod Log
pub mod Runs
pub mod Runlists
pub mod Lines
pub mod Sessions
pub mod Queries
pub mod Configs
pub mod Reports
pub mod Daemons
pub mod Modes
pub mod Loading
