-- ===== src/Scenarios.antt =====
-- Runs on concrete inputs.
pub mod Cluster
pub mod Runs
pub mod Cleaning
pub mod Checks
pub mod Inputs
pub mod Registering
pub mod Collecting
pub mod Logging
pub mod Commands
