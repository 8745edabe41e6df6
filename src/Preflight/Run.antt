-- ===== src/Preflight/Run.antt =====
-- `PerformPreflightChecks` of tools/preflight/preflight.go, one definition for each check and its
-- logged outcome. The Boolean that a step returns says whether it leaves `preflightStatus` as it
-- is (`true`) or sets it to false.
pub mod Keeps
pub mod Calls
pub mod Tally
pub mod Outcome
pub mod Traceless
pub mod Passed
use tvk_plugins.Prelude.{String, Bool, true, false, ◌&&◌, ◌||◌}
use tvk_plugins.Prelude.Tests.{if◌then◌else◌}
use tvk_plugins.Kube.Calls.{checks_failed, Result, Call}
use tvk_plugins.Preflight.Exec.{
  Check, kubectl, cluster_access, helm, kubernetes_version, rbac, volume_snapshot_crds,
  snapshot_class, pod_capability, dns, volume_snapshot, Exec, pure, raise, ask, try, modify,
  log_verdict, ◌>>=◌, ◌>>◌, on_result,
}
use tvk_plugins.Preflight.Options.{
  Run, min_k8s_version, rbac_api_group, rbac_api_version, storage_snapshot_group,
  exec_dns_resolution_cmd,
}
use tvk_plugins.Preflight.Platform.{Platform}
use tvk_plugins.Preflight.Resources.{
  create_resource_name_suffix, get_server_preferred_version_for_group,
}
use tvk_plugins.Preflight.Versions.{
  validate_kubectl, validate_cluster_access, validate_system_helm_version,
  validate_kubernetes_version, validate_kubernetes_rbac,
}
use tvk_plugins.Preflight.Snapshots.{
  check_and_create_volume_snapshot_crds, validate_storage_snapshot_class,
}
use tvk_plugins.Preflight.Pods.{
  validate_dns_resolution, validate_required_pod_capabilities, validate_volume_snapshot,
}
use tvk_plugins.Preflight.Cleanup.{Cleanup, cleanup_preflight_resources}

-- Run a check and log its outcome. (The line about a missing kubectl is logged twice in the code.)
unfoldable pub report : Check → Exec (Unit {0}) → Exec Bool
report c m = do
  r ← try m
  on_result r (λ e. log_verdict c false >> pure false) (λ _. log_verdict c true >> pure true)

unfoldable pub set_res_name_suffix : String → Exec (Unit {0})
set_res_name_suffix suffix = modify (λ s. record s { res_name_suffix = suffix })

module _ (p : Platform) (o : Run) where
  unfoldable pub kubectl_step : Exec Bool
  unfolding report
  kubectl_step = if o.in_cluster then pure true else report kubectl (validate_kubectl p "kubectl")

  unfoldable pub access_step : Exec Bool
  unfolding report
  access_step = report cluster_access (validate_cluster_access p "default")

  -- The success line is logged inside the check.
  unfoldable pub helm_step : Exec Bool
  helm_step = if o.in_cluster then pure true else do
    r ← try (validate_system_helm_version p "helm")
    on_result r (λ e. log_verdict helm false >> pure false) (λ _. pure true)

  unfoldable pub kubernetes_version_step : Exec Bool
  unfolding report
  kubernetes_version_step =
      report kubernetes_version (validate_kubernetes_version p min_k8s_version)

  unfoldable pub rbac_step : Exec Bool
  unfolding report
  rbac_step = report rbac (validate_kubernetes_rbac p rbac_api_group rbac_api_version)

  unfoldable pub crds_step : Exec Bool
  unfolding report
  crds_step = do
    r ← try (ask Call.server_version (λ h. p.server_version h))
    on_result r (λ e. log_verdict volume_snapshot_crds false >> pure false)
        (λ version.
          report volume_snapshot_crds (check_and_create_volume_snapshot_crds p version.string))

  -- The provisioner of the storage class, or the error that the step has logged.
  unfoldable pub storage_class_step : Exec (Result String)
  storage_class_step = do
    r ←
        try (
          ask (Call.get_storage_class o.storage_class) (λ h. p.get_storage_class h o.storage_class))
    on_result r (λ e. log_verdict snapshot_class false >> pure r) (λ _. pure r)

  unfoldable pub capability_step : String → Exec Bool
  unfolding report
  capability_step suffix = report pod_capability (validate_required_pod_capabilities p o suffix)

  -- `storageSnapshotSuccess` at the end of the block, from the outcome of the step above.
  unfoldable pub snapshot_class_step : Result String → Exec Bool
  unfolding report
  snapshot_class_step sc =
      on_result sc (λ e. pure false)
        (λ provisioner. (do
          r ← try (get_server_preferred_version_for_group p storage_snapshot_group)
          on_result r (λ e. log_verdict snapshot_class false >> pure false)
              (λ version.
                report snapshot_class (validate_storage_snapshot_class p provisioner version))))

  unfoldable pub dns_step : String → Exec Bool
  unfolding report
  dns_step suffix = report dns (validate_dns_resolution p o exec_dns_resolution_cmd suffix)

  unfoldable pub volume_snapshot_step : Bool → String → Exec Bool
  unfolding report
  volume_snapshot_step storage_snapshot_success suffix =
      if storage_snapshot_success
      then report volume_snapshot (validate_volume_snapshot p o suffix)
      else pure true

  -- All checks in the order of the code: `preflightStatus` at the end.
  unfoldable pub run_checks : String → Exec Bool
  unfolding kubectl_step access_step helm_step kubernetes_version_step rbac_step crds_step
      storage_class_step capability_step snapshot_class_step dns_step volume_snapshot_step
  run_checks suffix = do
    kubectl_ok ← kubectl_step
    access_ok ← access_step
    helm_ok ← helm_step
    version_ok ← kubernetes_version_step
    rbac_ok ← rbac_step
    crds_ok ← crds_step
    sc ← storage_class_step
    capability_ok ← capability_step suffix
    storage_ok ← snapshot_class_step sc
    dns_ok ← dns_step suffix
    snapshot_ok ← volume_snapshot_step storage_ok suffix
    pure (
        kubectl_ok && access_ok && helm_ok && version_ok && rbac_ok && crds_ok && capability_ok
        && storage_ok && dns_ok && snapshot_ok)

  abbrev pub own_cleanup : String → Cleanup
  own_cleanup suffix = record {
    uid = suffix;
    common_options = record {
      kubeconfig = o.kubeconfig;
      namespace = o.namespace;
      log_level = "";
      in_cluster = false;
    };
  }

  -- Cleanup and the result; a failed cleanup is only logged.
  unfoldable pub finish : Bool → String → Exec (Unit {0})
  finish preflight_status suffix = do
    cleaned ← try (
        if preflight_status || o.perform_cleanup_on_fail
        then cleanup_preflight_resources p (own_cleanup suffix)
        else pure tt)
    if preflight_status then pure tt else raise checks_failed

  unfoldable pub perform_preflight_checks : Exec (Unit {0})
  unfolding run_checks finish set_res_name_suffix
  perform_preflight_checks = do
    r ← try (create_resource_name_suffix p)
    on_result r (λ e. set_res_name_suffix "" >> raise e)
        (λ suffix. (do
          set_res_name_suffix suffix
          preflight_status ← run_checks suffix
          finish preflight_status suffix))
