-- ===== src/Kube.antt =====
-- What the plugins see of a Kubernetes cluster.
pub mod Objects
pub mod Calls
pub mod Cluster
