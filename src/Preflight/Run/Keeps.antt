-- ===== src/Preflight/Run/Keeps.antt =====
-- What a whole run keeps, if it survives the calls of a run with that suffix and does not look at
-- the verdicts.
use tvk_plugins.Prelude.{String, Bool, true, false, refl, ◌≡◌}
use tvk_plugins.Prelude.Lists.{All-trivial}
use tvk_plugins.Kube.Calls.{Result}
use tvk_plugins.Preflight.Exec.{State, Check, Exec, helm, log_verdict}
use tvk_plugins.Preflight.Exec.Keeps.{
  Keeps, Stable, IsVerdictFree, Keeps-log_verdict, Keeps-if, Keeps-pure, keeps_rules,
}
use tvk_plugins.Preflight.Options.{
  Run, min_k8s_version, rbac_api_group, rbac_api_version, storage_snapshot_group,
}
use tvk_plugins.Preflight.Platform.{Platform}
use tvk_plugins.Preflight.Platform.Polls.{Polls}
use tvk_plugins.Preflight.Resources.{get_server_preferred_version_for_group}
use tvk_plugins.Preflight.Resources.Keeps.{get_server_preferred_version_for_group-Keeps}
use tvk_plugins.Preflight.Versions.{
  validate_kubectl, validate_cluster_access, validate_system_helm_version,
  validate_kubernetes_version, validate_kubernetes_rbac,
}
use tvk_plugins.Preflight.Versions.Keeps.{
  validate_kubectl-Keeps, validate_cluster_access-Keeps, validate_system_helm_version-Keeps,
  validate_kubernetes_version-Keeps, validate_kubernetes_rbac-Keeps,
}
use tvk_plugins.Preflight.Snapshots.{
  check_and_create_volume_snapshot_crds, validate_storage_snapshot_class,
}
use tvk_plugins.Preflight.Snapshots.Keeps.{
  check_and_create_volume_snapshot_crds-Keeps, validate_storage_snapshot_class-Keeps,
}
use tvk_plugins.Preflight.Pods.Keeps.{
  validate_dns_resolution-Keeps, validate_required_pod_capabilities-Keeps,
  validate_volume_snapshot-Keeps,
}
use tvk_plugins.Preflight.Cleanup.Keeps.{cleanup_preflight_resources-Keeps}
use tvk_plugins.Preflight.Cleanup.{cleanup_preflight_resources}
use tvk_plugins.Preflight.Footprint.{RunCall}
use tvk_plugins.Preflight.Run.{
  report, kubectl_step, access_step, helm_step, kubernetes_version_step, rbac_step, crds_step,
  storage_class_step, capability_step, snapshot_class_step, dns_step, volume_snapshot_step,
  run_checks, finish, own_cleanup,
}

-- The checks alone, which log nothing but the helm line.
module _ {P : State → Type 0} (o : Run) (suffix : String) (stable : Stable P (RunCall o suffix))
    (p : Platform) where
  pub crds-Keeps : (v : String) → Keeps P (check_and_create_volume_snapshot_crds p v)
  crds-Keeps = check_and_create_volume_snapshot_crds-Keeps stable p (λ n. tt) (λ c. tt)

  pub access-Keeps : Keeps P (validate_cluster_access p "default")
  access-Keeps = validate_cluster_access-Keeps stable p "default" tt

  pub version-Keeps : Keeps P (validate_kubernetes_version p min_k8s_version)
  version-Keeps = validate_kubernetes_version-Keeps stable p min_k8s_version tt

  pub rbac-Keeps : Keeps P (validate_kubernetes_rbac p rbac_api_group rbac_api_version)
  rbac-Keeps = validate_kubernetes_rbac-Keeps stable p rbac_api_group rbac_api_version tt

  pub preferred-Keeps : Keeps P (get_server_preferred_version_for_group p storage_snapshot_group)
  preferred-Keeps = get_server_preferred_version_for_group-Keeps stable p tt storage_snapshot_group

  pub class-Keeps : (d v : String) → Keeps P (validate_storage_snapshot_class p d v)
  class-Keeps = validate_storage_snapshot_class-Keeps stable p tt tt (λ v. tt) (λ v. tt) (λ v n. tt)

  module _ (outside : o.in_cluster ≡ false) where
    pub kubectl-Keeps : Keeps P (validate_kubectl p "kubectl")
    kubectl-Keeps = validate_kubectl-Keeps stable p "kubectl" outside

    pub helm-Keeps :
        Keeps P (log_verdict helm true) → Keeps P (validate_system_helm_version p "helm")
    helm-Keeps logged =
        validate_system_helm_version-Keeps stable p logged "helm" (λ g. tt) (λ b. outside)
          (λ c. outside)

  pub finish-Keeps : (b : Bool) → Keeps P (finish p o b suffix)
  unfolding finish
  finish-Keeps b =
      let cleaned : Keeps P (cleanup_preflight_resources p (own_cleanup p o suffix)) =
        cleanup_preflight_resources-Keeps stable p {Good = λ u. Unit {0}} (λ u g. tt) (λ g n ns. tt)
          (λ g n ns. tt) (own_cleanup p o suffix) (λ h g objs e. All-trivial objs) tt
          (λ g. (refl, refl)) in
      search keeps_rules depth 7

module _ {P : State → Type 0} (o : Run) (suffix : String) (stable : Stable P (RunCall o suffix))
    (free : IsVerdictFree P) (p : Platform) (polls : Polls p) where
  report-Keeps : (c : Check) (m : Exec Unit) → Keeps P m → Keeps P (report c m)
  unfolding report
  report-Keeps c m k = search (keeps_rules, Keeps-log_verdict free)

  kubectl_step-Keeps : Keeps P (kubectl_step p o)
  unfolding kubectl_step
  kubectl_step-Keeps =
      Keeps-if _ _ _ (λ i. Keeps-pure true)
        (λ outside. report-Keeps _ _ (kubectl-Keeps o suffix stable p outside))

  helm_step-Keeps : Keeps P (helm_step p o)
  unfolding helm_step
  helm_step-Keeps =
      Keeps-if _ _ _ (λ i. Keeps-pure true)
        (λ outside.
          (let checked : Keeps P (validate_system_helm_version p "helm") =
              helm-Keeps o suffix stable p outside (Keeps-log_verdict free helm true) in
            search (keeps_rules, Keeps-log_verdict free)))

  crds_step-Keeps : Keeps P (crds_step p o)
  unfolding crds_step
  crds_step-Keeps =
      search
        (keeps_rules, stable, Keeps-log_verdict free, report-Keeps, crds-Keeps o suffix stable p)

  storage_class_step-Keeps : Keeps P (storage_class_step p o)
  unfolding storage_class_step
  storage_class_step-Keeps = search (keeps_rules, stable, Keeps-log_verdict free)

  pub snapshot_class_step-Keeps : (r : Result String) → Keeps P (snapshot_class_step p o r)
  unfolding snapshot_class_step
  snapshot_class_step-Keeps r =
      let preferred = preferred-Keeps o suffix stable p in
      search (keeps_rules, Keeps-log_verdict free, report-Keeps, class-Keeps o suffix stable p)
        depth 8

  volume_snapshot_step-Keeps : (b : Bool) → Keeps P (volume_snapshot_step p o b suffix)
  unfolding volume_snapshot_step
  volume_snapshot_step-Keeps b =
      search (keeps_rules, report-Keeps, validate_volume_snapshot-Keeps o suffix stable p polls)

  access_step-Keeps : Keeps P (access_step p o)
  unfolding access_step
  access_step-Keeps = report-Keeps _ _ (access-Keeps o suffix stable p)

  kubernetes_version_step-Keeps : Keeps P (kubernetes_version_step p o)
  unfolding kubernetes_version_step
  kubernetes_version_step-Keeps = report-Keeps _ _ (version-Keeps o suffix stable p)

  rbac_step-Keeps : Keeps P (rbac_step p o)
  unfolding rbac_step
  rbac_step-Keeps = report-Keeps _ _ (rbac-Keeps o suffix stable p)

  capability_step-Keeps : Keeps P (capability_step p o suffix)
  unfolding capability_step
  capability_step-Keeps =
      report-Keeps _ _ (validate_required_pod_capabilities-Keeps o suffix stable p polls)

  dns_step-Keeps : Keeps P (dns_step p o suffix)
  unfolding dns_step
  dns_step-Keeps = report-Keeps _ _ (validate_dns_resolution-Keeps o suffix stable p polls)

  pub run_checks-Keeps : Keeps P (run_checks p o suffix)
  unfolding run_checks
  run_checks-Keeps =
      search
        (
          keeps_rules, kubectl_step-Keeps, access_step-Keeps, helm_step-Keeps,
          kubernetes_version_step-Keeps, rbac_step-Keeps, crds_step-Keeps, storage_class_step-Keeps,
          capability_step-Keeps, snapshot_class_step-Keeps, dns_step-Keeps,
          volume_snapshot_step-Keeps,
        )
        depth 14
