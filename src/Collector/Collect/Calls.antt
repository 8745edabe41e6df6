-- ===== src/Collector/Collect/Calls.antt =====
-- The footprint of a collection: whatever the cluster and the file system answer, and whether it fails
-- or not (tools/log-collector/log_collector.go).
use tvk_plugins.Action.Triple.{Triple}
use tvk_plugins.Collector.Cluster.{Cluster}
use tvk_plugins.Collector.Collect.Archive.{Footprint}
