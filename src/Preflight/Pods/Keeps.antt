-- ===== src/Preflight/Pods/Keeps.antt =====
-- What the checks that run pods keep, if it survives the calls of a run with that suffix.
use tvk_plugins.Prelude.{ℕ, zero, suc, String, List, [], ◌∷◌, refl, inl, inr}
use tvk_plugins.Kube.Objects.{Pod, PersistentVolumeClaim, VolumeSnapshot, Container, Object}
use tvk_plugins.Preflight.Exec.{State}
use tvk_plugins.Preflight.Exec.Keeps.{Keeps, Stable, Keeps-ask, Keeps-bind, Keeps-try, keeps_rules}
use tvk_plugins.Preflight.Options.{Run, exec_dns_resolution_cmd}
use tvk_plugins.Preflight.Specs.{
  Capability, create_dns_pod_spec, create_volume_snapshot_pvc_spec, create_volume_snapshot_pod_spec,
  create_volume_snapsot_spec, create_restore_pvc_spec, create_restore_pod_spec,
  create_pod_spec_with_capability,
}
use tvk_plugins.Preflight.Platform.{Platform, Backoff}
use tvk_plugins.Preflight.Platform.Polls.{Polls}
use tvk_plugins.Preflight.Wait.Keeps.{
  exec_in_pod-Keeps, wait_until_pod_condition-Keeps, wait_until_vol_snap_ready_to_use-Keeps,
}
use tvk_plugins.Preflight.Resources.Keeps.{
  delete_k8s_resource-Keeps, get_server_preferred_version_for_group-Keeps,
}
use tvk_plugins.Preflight.Wait.{wait_until_vol_snap_ready_to_use}
use tvk_plugins.Preflight.Resources.{get_server_preferred_version_for_group, delete_k8s_resource}
use tvk_plugins.Preflight.Pods.{
  create_pod, get_pod, create_claim, wait_until_ready, create_dns_pod_on_cluster,
  validate_dns_resolution, indexed_suffix, validate_pod_capability, validate_cases,
  validate_required_pod_capabilities, create_source_pvc, create_source_pod_from_pvc,
  create_snapshot_from_pvc, create_restore_pod_from_snapshot, first_container, check_restored_data,
  validate_volume_snapshot, validation_cases,
}
use tvk_plugins.Preflight.Footprint.{OwnMeta, PodMeta, RunCall}

-- The metadata of each specification.
module _ (o : Run) (suffix : String) where
  dns_pod-OwnMeta : OwnMeta o suffix (create_dns_pod_spec o suffix).meta
  unfolding create_dns_pod_spec
  dns_pod-OwnMeta = (refl, refl)

  capability_pod-OwnMeta :
      (c : Capability) → OwnMeta o suffix (create_pod_spec_with_capability o suffix c).meta
  unfolding create_pod_spec_with_capability
  capability_pod-OwnMeta c = (refl, refl)

  source_pvc-OwnMeta :
      (name : String) → OwnMeta o suffix (create_volume_snapshot_pvc_spec o name suffix).meta
  unfolding create_volume_snapshot_pvc_spec
  source_pvc-OwnMeta name = (refl, refl)

  source_pod-OwnMeta :
      (pvc : String) → OwnMeta o suffix (create_volume_snapshot_pod_spec pvc o suffix).meta
  unfolding create_volume_snapshot_pod_spec
  source_pod-OwnMeta pvc = (refl, refl)

  snapshot-OwnMeta :
      (name class ver pvc : String)
      → OwnMeta o suffix (create_volume_snapsot_spec name class o.namespace ver pvc suffix).meta
  unfolding create_volume_snapsot_spec
  snapshot-OwnMeta name class ver pvc = (refl, refl)

  restore_pvc-OwnMeta :
      (name ds : String) → OwnMeta o suffix (create_restore_pvc_spec name ds suffix o).meta
  unfolding create_restore_pvc_spec
  restore_pvc-OwnMeta name ds = (refl, refl)

  restore_pod-OwnMeta :
      (name pvc : String) → OwnMeta o suffix (create_restore_pod_spec name pvc suffix o).meta
  unfolding create_restore_pod_spec
  restore_pod-OwnMeta name pvc = (refl, refl)

module _ {P : State → Type 0} (o : Run) (suffix : String) (stable : Stable P (RunCall o suffix))
    (p : Platform) (polls : Polls p) where
  create_pod-Keeps : (spec : Pod) → PodMeta o suffix spec.meta → Keeps P (create_pod p o spec)
  unfolding create_pod
  create_pod-Keeps spec q = Keeps-ask stable _ _ (refl, q)

  get_pod-Keeps : (name : String) → Keeps P (get_pod p o name)
  unfolding get_pod
  get_pod-Keeps name = Keeps-ask stable _ _ refl

  wait_until_ready-Keeps : (name : String) → Keeps P (wait_until_ready p o name)
  unfolding wait_until_ready
  wait_until_ready-Keeps name = wait_until_pod_condition-Keeps stable p polls _ refl

  delete-Keeps : (pod : Pod) → Keeps P (delete_k8s_resource p (Object.pod pod))
  delete-Keeps pod = delete_k8s_resource-Keeps stable p _ tt (λ g n ns. tt) (λ g n ns. tt)

  create_claim-Keeps :
      (spec : PersistentVolumeClaim) → OwnMeta o suffix spec.meta → Keeps P (create_claim p o spec)
  unfolding create_claim
  create_claim-Keeps spec q = Keeps-ask stable _ _ (refl, q)

  create_dns_pod_on_cluster-Keeps : Keeps P (create_dns_pod_on_cluster p o suffix)
  unfolding create_dns_pod_on_cluster
  create_dns_pod_on_cluster-Keeps =
      Keeps-bind _ _ (create_pod-Keeps _ (inl (dns_pod-OwnMeta o suffix)))
        (λ pod. search (keeps_rules, wait_until_ready-Keeps, get_pod-Keeps))

  pub validate_dns_resolution-Keeps :
      Keeps P (validate_dns_resolution p o exec_dns_resolution_cmd suffix)
  unfolding validate_dns_resolution
  validate_dns_resolution-Keeps = Keeps-bind _ _ create_dns_pod_on_cluster-Keeps (λ pod.
      Keeps-bind _ _ (Keeps-try _ (exec_in_pod-Keeps stable p _ (refl, inl refl)))
        (λ r. search (keeps_rules, delete-Keeps)))

  validate_pod_capability-Keeps :
      (i : ℕ) (c : Capability) → Keeps P (validate_pod_capability p o (indexed_suffix i suffix) c)
  unfolding validate_pod_capability
  validate_pod_capability-Keeps i c =
      Keeps-bind _ _ (create_pod-Keeps _ (inr (i, capability_pod-OwnMeta o _ c)))
        (λ pod. search (keeps_rules, wait_until_ready-Keeps, get_pod-Keeps, delete-Keeps) depth 7)

  validate_cases-Keeps : (i : ℕ) (cs : List Capability) → Keeps P (validate_cases p o i suffix cs)
  unfolding validate_cases
  validate_cases-Keeps i [] = search keeps_rules
  validate_cases-Keeps i (c ∷ cs) =
      Keeps-bind _ _ (validate_pod_capability-Keeps i c) (λ _. validate_cases-Keeps (suc i) cs)

  pub validate_required_pod_capabilities-Keeps :
      Keeps P (validate_required_pod_capabilities p o suffix)
  unfolding validate_required_pod_capabilities
  validate_required_pod_capabilities-Keeps = validate_cases-Keeps zero validation_cases

  create_source_pvc-Keeps : Keeps P (create_source_pvc p o suffix)
  unfolding create_source_pvc
  create_source_pvc-Keeps = create_claim-Keeps _ (source_pvc-OwnMeta o suffix _)

  create_source_pod_from_pvc-Keeps :
      (pvc : String) → Keeps P (create_source_pod_from_pvc p o suffix pvc)
  unfolding create_source_pod_from_pvc
  create_source_pod_from_pvc-Keeps pvc =
      Keeps-bind _ _ (create_pod-Keeps _ (inl (source_pod-OwnMeta o suffix pvc)))
        (λ pod. search (keeps_rules, wait_until_ready-Keeps, get_pod-Keeps))

  wait_snapshot-Keeps :
      (v : VolumeSnapshot) (ver : String) (b : Backoff)
      → Keeps P (wait_until_vol_snap_ready_to_use p v ver b)
  wait_snapshot-Keeps v ver b = wait_until_vol_snap_ready_to_use-Keeps stable p polls v ver b tt

  create_snapshot_from_pvc-Keeps :
      (name class ver pvc : String)
      → Keeps P (create_snapshot_from_pvc p o name class ver pvc suffix)
  unfolding create_snapshot_from_pvc
  create_snapshot_from_pvc-Keeps name class ver pvc =
      Keeps-bind _ _
        (Keeps-try _ (Keeps-ask stable _ _ (snapshot-OwnMeta o suffix name class ver pvc)))
        (λ r. search (keeps_rules, wait_snapshot-Keeps) depth 7)

  create_restore_pod_from_snapshot-Keeps :
      (v : VolumeSnapshot) (pvc pod : String)
      → Keeps P (create_restore_pod_from_snapshot p o v pvc pod suffix)
  unfolding create_restore_pod_from_snapshot
  create_restore_pod_from_snapshot-Keeps v pvc pod =
      Keeps-bind _ _ (create_claim-Keeps _ (restore_pvc-OwnMeta o suffix pvc _)) (λ c.
        Keeps-bind _ _ (create_pod-Keeps _ (inl (restore_pod-OwnMeta o suffix pod _)))
          (λ r. search (keeps_rules, wait_until_ready-Keeps, get_pod-Keeps)))

  first_container-Keeps : (cs : List Container) → Keeps P (first_container cs)
  unfolding first_container
  first_container-Keeps [] = search keeps_rules
  first_container-Keeps (c ∷ cs) = search keeps_rules

  check_restored_data-Keeps : (pod : Pod) → Keeps P (check_restored_data p o pod)
  unfolding check_restored_data
  check_restored_data-Keeps pod =
      Keeps-bind _ _ (first_container-Keeps pod.spec.containers)
        (λ c. exec_in_pod-Keeps stable p _ (refl, inr refl))

  preferred_version-Keeps : (grp : String) → Keeps P (get_server_preferred_version_for_group p grp)
  preferred_version-Keeps = get_server_preferred_version_for_group-Keeps stable p tt

  pub validate_volume_snapshot-Keeps : Keeps P (validate_volume_snapshot p o suffix)
  unfolding validate_volume_snapshot
  validate_volume_snapshot-Keeps =
      search
        (
          keeps_rules, preferred_version-Keeps, create_source_pvc-Keeps,
          create_source_pod_from_pvc-Keeps, create_snapshot_from_pvc-Keeps,
          create_restore_pod_from_snapshot-Keeps, check_restored_data-Keeps, get_pod-Keeps,
          delete-Keeps,
        )
        depth 16
