-- ===== src/Preflight/Platform.antt =====
-- Everything that the preflight code calls and does not implement: the cluster and the system, and
-- `k8swait.ExponentialBackoff`, which polls a condition.
pub mod Polls
use tvk_plugins.Prelude.{ℕ, Bool}
use tvk_plugins.Kube.Cluster.{Cluster}
use tvk_plugins.Preflight.Exec.{Exec}

-- `k8swait.Backoff`: the duration in seconds, factor and jitter in tenths.
pub record Backoff : Type 0 where
  pub steps : ℕ
  pub duration : ℕ
  pub factor : ℕ
  pub jitter : ℕ

pub record Platform : Type 0 where
  pub cluster : Cluster
  pub open cluster use *
  pub exponential_backoff : Backoff → Exec Bool → Exec (Unit {0})

-- `getDefaultRetryBackoffParams`
abbrev pub get_default_retry_backoff_params : Backoff
get_default_retry_backoff_params = record { steps = 120; duration = 5; factor = 10; jitter = 1 }
