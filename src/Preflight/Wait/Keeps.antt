-- ===== src/Preflight/Wait/Keeps.antt =====
-- What waiting and executing keep, from the one call that each round makes.
use tvk_plugins.Prelude.{String, Option, none, some, List, [], ◌∷◌}
use tvk_plugins.Kube.Objects.{Nested, absent, malformed, found, VolumeSnapshot}
use tvk_plugins.Kube.Calls.{Call}
use tvk_plugins.Kube.Cluster.{ExecReply}
use tvk_plugins.Preflight.Exec.{State}
use tvk_plugins.Preflight.Exec.Keeps.{Keeps, Stable, keeps_rules}
use tvk_plugins.Preflight.Platform.{Platform, Backoff}
use tvk_plugins.Preflight.Platform.Polls.{Polls}
use tvk_plugins.Preflight.Wait.{
  PodWaitOptions, poll_pod, wait_until_pod_condition, is_ready, poll_snapshot,
  wait_until_vol_snap_ready_to_use, ExecOptions, receive, exec_in_pod,
}

module _ {P : State → Type 0} {Q : Call → Type 0} (stable : Stable P Q) (p : Platform) where
  poll_pod-Keeps :
      (o : PodWaitOptions) → Q (Call.get_pod o.namespace o.name) → Keeps P (poll_pod p o)
  unfolding poll_pod
  poll_pod-Keeps o q = search (keeps_rules, stable)

  is_ready-Keeps : (n : Nested _) → Keeps P (is_ready p n)
  unfolding is_ready
  is_ready-Keeps (found r) = search keeps_rules
  is_ready-Keeps malformed = search keeps_rules
  is_ready-Keeps absent = search keeps_rules

  poll_snapshot-Keeps :
      (v : VolumeSnapshot) (ver : String)
      → Q (Call.get_snapshot ver v.meta.namespace v.meta.name)
      → Keeps P (poll_snapshot p v ver)
  unfolding poll_snapshot
  poll_snapshot-Keeps v ver q = search (keeps_rules, stable, is_ready-Keeps)

  receive-Keeps : (o : ExecOptions) (l : List (Option ExecReply)) → Keeps P (receive p o l)
  unfolding receive
  receive-Keeps o (some r ∷ rest) = search keeps_rules
  receive-Keeps o (none ∷ rest) = search keeps_rules
  receive-Keeps o [] = search keeps_rules

  pub exec_in_pod-Keeps :
      (o : ExecOptions)
      → Q (Call.exec o.namespace o.pod_name o.container_name o.command)
      → Keeps P (exec_in_pod p o)
  unfolding exec_in_pod
  exec_in_pod-Keeps o q = search (keeps_rules, stable, receive-Keeps)

  module _ (polls : Polls p) where
    pub wait_until_pod_condition-Keeps :
        (o : PodWaitOptions)
        → Q (Call.get_pod o.namespace o.name)
        → Keeps P (wait_until_pod_condition p o)
    unfolding wait_until_pod_condition
    wait_until_pod_condition-Keeps o q = search (keeps_rules, polls.keeps, poll_pod-Keeps)

    pub wait_until_vol_snap_ready_to_use-Keeps :
        (v : VolumeSnapshot) (ver : String) (b : Backoff)
        → Q (Call.get_snapshot ver v.meta.namespace v.meta.name)
        → Keeps P (wait_until_vol_snap_ready_to_use p v ver b)
    unfolding wait_until_vol_snap_ready_to_use
    wait_until_vol_snap_ready_to_use-Keeps v ver b q = search (polls.keeps, poll_snapshot-Keeps)
