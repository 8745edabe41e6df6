-- ===== src/Scenarios/Runs.antt =====
-- Runs and cleanups on the concrete cluster.
use Prim.Native.String.{len}
use tvk_plugins.Prelude.{String, true, [], ◌∷◌, ◌≡◌, refl, ◌↔◌, ◌≢◌, arith, subst, ap, ◌++◌}
use tvk_plugins.Prelude.Lists.{All}
use tvk_plugins.Kube.Objects.{Unstructured}
use tvk_plugins.Kube.Calls.{ok, is_ok}
use tvk_plugins.Preflight.Options.{storage_snapshot_group}
use tvk_plugins.Preflight.Footprint.{own_cleanup}
use tvk_plugins.Preflight.Run.{perform_preflight_checks}
use tvk_plugins.Preflight.Run.Tally.{passed}
use tvk_plugins.Preflight.Run.Outcome.{perform-ok_iff}
use tvk_plugins.Preflight.Resources.{create_resource_name_suffix, versions_of_group}
use tvk_plugins.Preflight.Resources.Suffix.{Letters, suffix-Letters}
use tvk_plugins.Preflight.Cleanup.{
  Cleanup, cleanup_preflight_resources, res_labels, res_labels_of, delete_ns, cleanup_kinds,
}
use tvk_plugins.Preflight.Cleanup.Scope.{
  CleanupCall, cleanup-CleanupCall, capability_pod-not-Selected, Selects, created-Selected,
}
use tvk_plugins.Preflight.Cleanup.Kinds.{listed, cleanup-lists_all}
use mathlib.Core.List.{reverse}
use tvk_plugins.Preflight.Cleanup.Keeps.{ListsOnly}
use tvk_plugins.Preflight.Pods.{indexed_suffix}
use tvk_plugins.Preflight.Specs.{
  Capability, create_pod_spec_with_capability, create_dns_pod_spec, create_volume_snapshot_pvc_spec,
  create_volume_snapshot_pod_spec, create_volume_snapsot_spec, create_restore_pvc_spec,
  create_restore_pod_spec,
}
use tvk_plugins.Scenarios.Cluster.{
  platform, platform-Polls, leftover, start, options, suffix_of_start,
}

perform-ok_iff_example : ((perform_preflight_checks platform options start).0 ≡ ok tt) ↔ (
    (is_ok (create_resource_name_suffix platform start).0 ≡ true)
    × (passed (perform_preflight_checks platform options start).1.verdicts ≡ true))
perform-ok_iff_example = perform-ok_iff platform platform-Polls options start refl

suffix-Letters_example : (len "abcdef" ≡ 6) × Letters "abcdef"
suffix-Letters_example = suffix-Letters platform start "abcdef" suffix_of_start

abbrev clean_default : Cleanup
clean_default = own_cleanup options "abcdef"

abbrev IsLeftover : Unstructured → Type 0
IsLeftover u = u ≡ leftover

ListsOnly-IsLeftover :
    ListsOnly platform (res_labels clean_default) (delete_ns clean_default) IsLeftover
ListsOnly-IsLeftover h g objs e =
    let f : leftover ∷ [] ≡ objs = cc in subst (All IsLeftover) f (refl, tt)

cleanup-CleanupCall_example :
    All
      (CleanupCall clean_default IsLeftover)
      (cleanup_preflight_resources platform clean_default start).1.calls
cleanup-CleanupCall_example =
    cleanup-CleanupCall platform clean_default IsLeftover start ListsOnly-IsLeftover refl

cleanup-lists_all_example :
    listed (cleanup_preflight_resources platform clean_default start).1.calls
    ≡ reverse (
        cleanup_kinds
          (versions_of_group storage_snapshot_group (platform.server_groups start.calls).0))
      ++ listed start.calls
cleanup-lists_all_example = cleanup-lists_all platform clean_default start refl

created-Selected_example :
    let selector = res_labels_of "abcdef" in
    Selects selector (create_dns_pod_spec options "abcdef").meta.labels
    × Selects selector (create_volume_snapshot_pvc_spec options "a" "abcdef").meta.labels
    × Selects selector (create_volume_snapshot_pod_spec "a" options "abcdef").meta.labels
    × Selects selector
        (create_volume_snapsot_spec "a" "b" options.namespace "c" "d" "abcdef").meta.labels
    × Selects selector (create_restore_pvc_spec "a" "b" "abcdef" options).meta.labels
    × Selects selector (create_restore_pod_spec "a" "b" "abcdef" options).meta.labels
created-Selected_example = created-Selected options "abcdef" "a" "b" "c" "d"

abbrev root_user : Capability
root_user = record { user_id = 0; allow_privilege_escalation = true; privileged = true }

abbrev uid : String
uid = "abcdef"

named : uid ≢ ""
named h = omega (arith, ap len h)

capability_pod-not-Selected_example :
    (¬ Selects
      (res_labels (own_cleanup options "abcdef"))
      (create_pod_spec_with_capability options (indexed_suffix 0 "abcdef") root_user).meta.labels)
    × Selects
        (res_labels_of "")
        (create_pod_spec_with_capability options (indexed_suffix 0 "abcdef") root_user).meta.labels
capability_pod-not-Selected_example = capability_pod-not-Selected options 0 "abcdef" root_user named
