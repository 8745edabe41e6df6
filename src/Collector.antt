-- ===== src/Collector.antt =====
-- The log-collector: tools/log-collector/log_collector.go and tools/log-collector/helper.go.
pub mod Objects
pub mod Calls
pub mod Cluster
pub mod Exec
pub mod Labels
pub mod Filters
pub mod Files
pub mod Events
pub mod Resources
pub mod Collect
pub mod Flags
pub mod Inputs
pub mod Registration
pub mod Footprint
pub mod Run
