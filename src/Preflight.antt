-- ===== src/Preflight.antt =====
-- tools/preflight: the checks that a cluster meets the product's needs, and their cleanup.
pub mod Exec
pub mod Options
pub mod Specs
pub mod Platform
pub mod Wait
pub mod Resources
pub mod Versions
pub mod Snapshots
pub mod Pods
pub mod Cleanup
pub mod Run
pub mod Footprint
