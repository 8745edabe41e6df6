-- ===== src/Preflight/Footprint.antt =====
-- The calls that a preflight run with a given suffix may make (tools/preflight): what it may create
-- and where, in which pods it may execute what, and what it may list for cleanup.
use tvk_plugins.Prelude.{ℕ, String, false, ◌≡◌, ◌⊎◌}
use tvk_plugins.Kube.Objects.{ObjectMeta}
use tvk_plugins.Kube.Calls.{
  Call, look_path, run_cmd, create_pod, create_claim, create_snapshot, get_pod, exec, list_objects,
}
use tvk_plugins.Preflight.Options.{Run, exec_dns_resolution_cmd, exec_restore_data_check_command}
use tvk_plugins.Preflight.Specs.{get_preflight_resource_labels}
use tvk_plugins.Preflight.Pods.{indexed_suffix}
use tvk_plugins.Preflight.Cleanup.{Cleanup, res_labels, delete_ns}

-- The labels of the run, in the run's namespace.
abbrev pub OwnMeta : Run → String → ObjectMeta → Type 0
OwnMeta o suffix m = (m.namespace ≡ o.namespace) × (m.labels ≡ get_preflight_resource_labels suffix)

abbrev pub PodMeta : Run → String → ObjectMeta → Type 0
PodMeta o suffix m = OwnMeta o suffix m ⊎ ((i : ℕ) × OwnMeta o (indexed_suffix i suffix) m)

abbrev pub own_cleanup : Run → String → Cleanup
own_cleanup o suffix = record {
  uid = suffix;
  common_options = record {
    kubeconfig = o.kubeconfig;
    namespace = o.namespace;
    log_level = "";
    in_cluster = false;
  };
}

abbrev pub RunCall : Run → String → Call → Type 0
RunCall o suffix (look_path _) = o.in_cluster ≡ false
RunCall o suffix (run_cmd _) = o.in_cluster ≡ false
RunCall o suffix (create_pod ns pod) = (ns ≡ o.namespace) × PodMeta o suffix pod.meta
RunCall o suffix (create_claim ns c) = (ns ≡ o.namespace) × OwnMeta o suffix c.meta
RunCall o suffix (create_snapshot v) = OwnMeta o suffix v.meta
RunCall o suffix (get_pod ns _) = ns ≡ o.namespace
RunCall o suffix (exec ns _ _ cmd) =
    (ns ≡ o.namespace) × ((cmd ≡ exec_dns_resolution_cmd) ⊎ (cmd ≡ exec_restore_data_check_command))
RunCall o suffix (list_objects _ labels ns) =
    (labels ≡ res_labels (own_cleanup o suffix)) × (ns ≡ delete_ns (own_cleanup o suffix))
RunCall o suffix _ = Unit
