-- ===== src/Preflight/Pods.antt =====
-- The checks that run pods: DNS resolution, pod capabilities, and volume snapshot and restore, of
-- tools/preflight/preflight.go.
pub mod Keeps
pub mod Milestones
pub mod Steps
pub mod Restoring
pub mod Restored
pub mod Passed
use Prim.Native.String.{◌++◌}
use tvk_plugins.Prelude.{ℕ, zero, suc, String, true, false, List, [], ◌∷◌}
use tvk_plugins.Prelude.Tests.{if◌then◌else◌}
use tvk_plugins.Kube.Objects.{Pod, PersistentVolumeClaim, VolumeSnapshot, Container, Object}
use tvk_plugins.Kube.Calls.{
  dns_unresolved, failed, pod_not_ready, creating_snapshot, snapshot_not_ready, is_wait_timeout,
  Call,
}
use tvk_plugins.Preflight.Exec.{Exec, pure, raise, gets, ask, try, ◌>>=◌, ◌>>◌, on_result}
use tvk_plugins.Preflight.Options.{
  Run, storage_snapshot_group, dns_container_name, exec_restore_data_check_command,
}
use tvk_plugins.Preflight.Specs.{
  create_dns_pod_spec, create_volume_snapshot_pvc_spec, create_volume_snapshot_pod_spec,
  create_volume_snapsot_spec, create_restore_pvc_spec, create_restore_pod_spec,
  create_pod_spec_with_capability, Capability,
}
use tvk_plugins.Preflight.Platform.{Platform, get_default_retry_backoff_params}
use tvk_plugins.Preflight.Wait.{
  wait_until_pod_condition, wait_until_vol_snap_ready_to_use, exec_in_pod,
}
use tvk_plugins.Preflight.Resources.{delete_k8s_resource, get_server_preferred_version_for_group}

-- `pod.Spec.Containers[0].Name`, an error where Go panics
unfoldable pub first_container : List Container → Exec String
first_container [] = raise (failed "index out of range")
first_container (c ∷ cs) = pure c.name

-- `fmt.Sprintf("%d-%s", index, podNameSuffix)` for the three indices
unfoldable pub indexed_suffix : ℕ → String → String
indexed_suffix zero suffix = "0-" ++ suffix
indexed_suffix (suc zero) suffix = "1-" ++ suffix
indexed_suffix (suc (suc n)) suffix = "2-" ++ suffix

abbrev pub validation_cases : List Capability
validation_cases =
    record { user_id = 0; allow_privilege_escalation = true; privileged = true }
    ∷ record { user_id = 1001; allow_privilege_escalation = false; privileged = false }
    ∷ record { user_id = 101; allow_privilege_escalation = true; privileged = false }
    ∷ []

module _ (p : Platform) (o : Run) where
  -- `Pods(o.Namespace).Create`
  unfoldable pub create_pod : Pod → Exec Pod
  create_pod spec = ask (Call.create_pod o.namespace spec) (λ h. p.create_pod h o.namespace spec)

  -- `Pods(o.Namespace).Get`
  unfoldable pub get_pod : String → Exec Pod
  get_pod name = ask (Call.get_pod o.namespace name) (λ h. p.get_pod h o.namespace name)

  unfoldable pub create_claim : PersistentVolumeClaim → Exec PersistentVolumeClaim
  create_claim spec =
      ask (Call.create_claim o.namespace spec) (λ h. p.create_claim h o.namespace spec)

  unfoldable pub wait_until_ready : String → Exec (Unit {0})
  wait_until_ready name =
      wait_until_pod_condition p
        (record { name = name; namespace = o.namespace; pod_condition = "Ready" })

  unfoldable pub create_dns_pod_on_cluster : String → Exec Pod
  unfolding create_pod get_pod wait_until_ready
  create_dns_pod_on_cluster pod_name_suffix = do
    let pod = create_dns_pod_spec o pod_name_suffix
    created ← create_pod pod
    wait_until_ready pod.meta.name
    get_pod pod.meta.name

  -- A failed deletion is only logged.
  unfoldable pub validate_dns_resolution : List String → String → Exec (Unit {0})
  unfolding create_dns_pod_on_cluster
  validate_dns_resolution exec_command pod_name_suffix = do
    pod ← create_dns_pod_on_cluster pod_name_suffix
    r ← try (
        exec_in_pod p (record {
          namespace = o.namespace;
          command = exec_command;
          pod_name = pod.meta.name;
          container_name = dns_container_name;
        }))
    on_result r (λ e. raise dns_unresolved)
        (λ _. (do deleted ← try (delete_k8s_resource p (Object.pod pod)); pure tt))

  unfoldable pub validate_pod_capability : String → Capability → Exec (Unit {0})
  unfolding create_pod get_pod wait_until_ready
  validate_pod_capability pod_name_suffix validation_case = do
    let pod = create_pod_spec_with_capability o pod_name_suffix validation_case
    created ← create_pod pod
    wait_until_ready pod.meta.name
    running ← get_pod pod.meta.name
    deleted ← try (delete_k8s_resource p (Object.pod running))
    pure tt

  unfoldable pub validate_cases : ℕ → String → List Capability → Exec (Unit {0})
  unfolding validate_pod_capability
  validate_cases index suffix [] = pure tt
  validate_cases index suffix (c ∷ cs) = do
    validate_pod_capability (indexed_suffix index suffix) c
    validate_cases (suc index) suffix cs

  unfoldable pub validate_required_pod_capabilities : String → Exec (Unit {0})
  unfolding validate_cases
  validate_required_pod_capabilities pod_name_suffix =
      validate_cases zero pod_name_suffix validation_cases

  unfoldable pub create_source_pvc : String → Exec PersistentVolumeClaim
  unfolding create_claim
  create_source_pvc name_suffix =
      create_claim (create_volume_snapshot_pvc_spec o ("source-pvc-" ++ name_suffix) name_suffix)

  unfoldable pub create_source_pod_from_pvc : String → String → Exec Pod
  unfolding create_pod get_pod wait_until_ready
  create_source_pod_from_pvc name_suffix pvc_name = do
    src_pod ← create_pod (create_volume_snapshot_pod_spec pvc_name o name_suffix)
    r ← try (wait_until_ready src_pod.meta.name)
    on_result r (λ e. raise (pod_not_ready src_pod.meta.name)) (λ _. get_pod src_pod.meta.name)

  -- The object that `Create` is given is updated in place by the reply.
  unfoldable pub create_snapshot_from_pvc :
      String → String → String → String → String → Exec VolumeSnapshot
  create_snapshot_from_pvc vol_snap_name vol_snap_class snapshot_ver pvc_name uid = do
    let spec =
        create_volume_snapsot_spec vol_snap_name vol_snap_class o.namespace snapshot_ver pvc_name
          uid
    created ← try (ask (Call.create_snapshot spec) (λ h. p.create_snapshot h spec))
    on_result created (λ e. raise (creating_snapshot e))
        (λ vol_snap. (do
          r ← try (
              wait_until_vol_snap_ready_to_use p vol_snap snapshot_ver
                get_default_retry_backoff_params)
          on_result r
              (λ e.
                (if is_wait_timeout e
                  then raise (snapshot_not_ready vol_snap.meta.name e)
                  else raise e))
              (λ _. pure vol_snap)))

  unfoldable pub create_restore_pod_from_snapshot :
      VolumeSnapshot → String → String → String → Exec Pod
  unfolding create_pod get_pod create_claim wait_until_ready
  create_restore_pod_from_snapshot vol_snapshot pvc_name pod_name uid = do
    restore_pvc ← create_claim (create_restore_pvc_spec pvc_name vol_snapshot.meta.name uid o)
    restore_pod ← create_pod (create_restore_pod_spec pod_name restore_pvc.meta.name uid o)
    wait_until_ready restore_pod.meta.name
    get_pod restore_pod.meta.name

  -- The data check in the first container of a restored pod.
  unfoldable pub check_restored_data : Pod → Exec (Unit {0})
  unfolding first_container
  check_restored_data pod = do
    container ← first_container pod.spec.containers
    exec_in_pod p (record {
      namespace = o.namespace;
      command = exec_restore_data_check_command;
      pod_name = pod.meta.name;
      container_name = container;
    })

  unfoldable pub validate_volume_snapshot : String → Exec (Unit {0})
  unfolding create_source_pvc create_source_pod_from_pvc create_snapshot_from_pvc
      create_restore_pod_from_snapshot check_restored_data get_pod
  validate_volume_snapshot suffix = do
    ver ← get_server_preferred_version_for_group p storage_snapshot_group
    pvc ← create_source_pvc suffix
    src_pod ← create_source_pod_from_pvc suffix pvc.meta.name
    class ← gets (λ s. s.storage_vol_snap_class)
    vol_snap ←
        create_snapshot_from_pvc ("snapshot-source-pvc-" ++ suffix) class ver pvc.meta.name suffix
    restore_pod ←
        create_restore_pod_from_snapshot vol_snap ("restored-pvc-" ++ suffix)
          ("restored-pod-" ++ suffix) suffix
    check_restored_data restore_pod
    src_pod' ← get_pod src_pod.meta.name
    delete_k8s_resource p (Object.pod src_pod')
    class' ← gets (λ s. s.storage_vol_snap_class)
    unmounted_snap ←
        create_snapshot_from_pvc ("unmounted-source-pvc-" ++ suffix) class' ver pvc.meta.name suffix
    unmounted_pod ←
        create_restore_pod_from_snapshot unmounted_snap ("unmounted-restored-pvc-" ++ suffix)
          ("unmounted-restored-pod-" ++ suffix) suffix
    check_restored_data unmounted_pod
