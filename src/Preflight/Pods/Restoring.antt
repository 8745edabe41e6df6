-- ===== src/Preflight/Pods/Restoring.antt =====
-- The restored pod of a volume snapshot check, the deletion of a pod, and the milestones that they
-- reach: `validateVolumeSnapshot` of tools/preflight/preflight.go.
use Prim.Native.String.{◌++◌}
use tvk_plugins.Prelude.{String, List, ◌∷◌, ◌≡◌, refl, ◌∙◌, sym, subst, inl}
use tvk_plugins.Kube.Objects.{Pod, VolumeSnapshot, Object}
use tvk_plugins.Action.Triple.{Triple-bind, Triple-given, Triple-of_Keeps, Triple-of_ok, Triple-to}
use tvk_plugins.Preflight.Exec.{State, Exec, ◌>>=◌}
use tvk_plugins.Preflight.Exec.Keeps.{Keeps, keeps_rules}
use tvk_plugins.Preflight.Resources.{delete_k8s_resource, remove_finalizer}
use tvk_plugins.Preflight.Options.{Run, exec_restore_data_check_command}
use tvk_plugins.Preflight.Platform.{Platform}
use tvk_plugins.Preflight.Platform.Polls.{Polls}
use tvk_plugins.Preflight.Specs.{
  create_volume_snapsot_spec, create_restore_pvc_spec, create_restore_pod_spec,
}
use tvk_plugins.Preflight.Wait.{ExecOptions, exec_in_pod}
use tvk_plugins.Preflight.Wait.Outcomes.{exec-ok_iff}
use tvk_plugins.Preflight.Pods.{
  create_snapshot_from_pvc, create_restore_pod_from_snapshot, check_restored_data,
}
use tvk_plugins.Preflight.Pods.Steps.{
  get_pod-Reached, first_container-Reached, create_snapshot-Reached,
}
use tvk_plugins.Preflight.Pods.Milestones.{
  Milestone, claim_created, pod_created, pod_ready, snapshot_created, snapshot_ready, command_run,
  pod_deleted, InOrder, At, At-Stable, NamesAsked, Reached, asked-Reached, create_pod-Reached,
  create_claim-Reached, wait_until_ready-Reached,
}

module _ (p : Platform) (polls : Polls p) (names : NamesAsked p) (o : Run) where
  restore_pvc_name :
      (pvc snapshot uid : String) → (create_restore_pvc_spec pvc snapshot uid o).meta.name ≡ pvc
  unfolding create_restore_pvc_spec
  restore_pvc_name pvc snapshot uid = refl

  restore_pod_name :
      (pod pvc uid : String) → (create_restore_pod_spec pod pvc uid o).meta.name ≡ pod
  unfolding create_restore_pod_spec
  restore_pod_name pod pvc uid = refl

  create_restore_pod-Reached :
      (ms : List Milestone) (v : VolumeSnapshot) (snapshot pvc pod uid : String)
      → v.meta.name ≡ snapshot
      → Reached
          (At p o.namespace ms)
          (create_restore_pod_from_snapshot p o v pvc pod uid)
          (λ restored s.
            At p o.namespace
              (pod_ready pod
                ∷ pod_created (create_restore_pod_spec pod pvc uid o)
                ∷ claim_created (create_restore_pvc_spec pvc snapshot uid o)
                ∷ ms)
              s
            × (restored.meta.name ≡ pod))
  unfolding create_restore_pod_from_snapshot
  create_restore_pod-Reached ms v snapshot pvc pod uid e =
      let claim = create_restore_pvc_spec pvc snapshot uid o in
      let spec = create_restore_pod_spec pod pvc uid o in
      rw e (
        Triple-bind _ _ (create_claim-Reached p o names ms claim) (λ c. Triple-given _ (λ same.
          rw (same ∙ restore_pvc_name pvc snapshot uid) (
            Triple-bind _ _ (create_pod-Reached p o names (claim_created claim ∷ ms) spec) (λ r.
              Triple-given _ (λ same_pod. rw (same_pod ∙ restore_pod_name pod pvc uid) (
                Triple-bind _ _
                  (wait_until_ready-Reached p o polls (pod_created spec) (claim_created claim ∷ ms)
                    pod (λ h no. no))
                  (λ u.
                    get_pod-Reached p polls names o
                      (pod_ready pod ∷ pod_created spec ∷ claim_created claim ∷ ms) pod))))))))

  pub executed-Reached :
      (ms : List Milestone) (pod container : String) (command : List String)
      → Reached
          (At p o.namespace ms)
          (exec_in_pod p (record {
            namespace = o.namespace;
            command = command;
            pod_name = pod;
            container_name = container;
          }))
          (λ u s. At p o.namespace (command_run pod command ∷ ms) s)
  executed-Reached ms pod container command = Triple-of_ok _ (λ s before u e.
      (let op : ExecOptions = record {
        namespace = o.namespace;
        command = command;
        pod_name = pod;
        container_name = container;
      } in
        let ((f, g), calls) = exec-ok_iff p op s in
        let done = f e in
        subst (InOrder p o.namespace (command_run pod command ∷ ms)) (sym calls)
          (inl ((refl, refl, refl, done.2), before))))

  check_restored_data-Reached :
      (ms : List Milestone) (pod : Pod)
      → Reached (At p o.namespace ms) (check_restored_data p o pod) (λ u s.
        At p o.namespace (command_run pod.meta.name exec_restore_data_check_command ∷ ms) s)
  unfolding check_restored_data
  check_restored_data-Reached ms pod =
      Triple-bind _ _ (first_container-Reached p polls names o ms pod.spec.containers)
        (λ c. executed-Reached ms pod.meta.name c exec_restore_data_check_command)

  pub kept-Reached :
      {A : Type 0} (ms : List Milestone) (m : Exec A)
      → Keeps (At p o.namespace ms) m
      → Reached (At p o.namespace ms) m (λ a s. At p o.namespace ms s)
  kept-Reached ms m k = Triple-to m (Triple-of_Keeps m k) (λ a t h. h) (λ t h. tt)

  delete-Reached :
      (ms : List Milestone) (pod : Pod)
      → Reached
          (At p o.namespace ms)
          (delete_k8s_resource p (Object.pod pod))
          (λ u s. At p o.namespace (pod_deleted pod.meta.name ∷ ms) s)
  unfolding delete_k8s_resource remove_finalizer
  delete-Reached ms pod =
      let last = pod_deleted pod.meta.name ∷ ms in
      Triple-bind _ _
        (asked-Reached p o (pod_deleted pod.meta.name) ms _ _ (λ h a e. (refl, rw e refl)))
        (λ a. Triple-given _ (λ replied.
          kept-Reached last _ (search (keeps_rules, At-Stable p o.namespace last) depth 8)))

  pub deleted-Reached :
      (ms : List Milestone) (pod : Pod) (name : String)
      → pod.meta.name ≡ name
      → Reached
          (At p o.namespace ms)
          (delete_k8s_resource p (Object.pod pod))
          (λ u s. At p o.namespace (pod_deleted name ∷ ms) s)
  deleted-Reached ms pod name e =
      subst
        (λ n.
          Reached (At p o.namespace ms) (delete_k8s_resource p (Object.pod pod))
            (λ u s. At p o.namespace (pod_deleted n ∷ ms) s))
        e (delete-Reached ms pod)

  -- A snapshot, a claim from it and a pod with the claim, and what is done with the pod.
  pub restoration-Reached :
      {A : Type 0} (ms : List Milestone) (suffix ver name class pvc pod : String) (k : Pod → Exec A)
      (post : A → State → Type 0)
      → let spec =
          create_volume_snapsot_spec name class o.namespace ver ("source-pvc-" ++ suffix) suffix in
        ((r : Pod)
          → r.meta.name ≡ pod
          → Reached
              (At p o.namespace (
                pod_ready pod
                ∷ pod_created (create_restore_pod_spec pod pvc suffix o)
                ∷ claim_created (create_restore_pvc_spec pvc name suffix o)
                ∷ snapshot_ready ver name
                ∷ snapshot_created spec
                ∷ ms))
              (k r)
              post)
        → Reached
            (At p o.namespace ms)
            (create_snapshot_from_pvc p o name class ver ("source-pvc-" ++ suffix) suffix >>= λ v.
              create_restore_pod_from_snapshot p o v pvc pod suffix >>= k)
            post
  restoration-Reached ms suffix ver name class pvc pod k post later =
      Triple-bind _ _ (create_snapshot-Reached p polls names o ms name class ver _ suffix) (λ v.
        Triple-given _ (λ same.
          Triple-bind _ _
            (create_restore_pod-Reached
              (snapshot_ready ver name
                ∷ snapshot_created (
                    create_volume_snapsot_spec name class o.namespace ver ("source-pvc-" ++ suffix)
                      suffix)
                ∷ ms)
              v name pvc pod suffix same)
            (λ r. Triple-given _ (λ same_pod. later r same_pod))))

  pub checked-Reached :
      (ms : List Milestone) (r : Pod) (pod : String)
      → r.meta.name ≡ pod
      → Reached
          (At p o.namespace ms)
          (check_restored_data p o r)
          (λ u s. At p o.namespace (command_run pod exec_restore_data_check_command ∷ ms) s)
  checked-Reached ms r pod e =
      subst
        (λ n.
          Reached (At p o.namespace ms) (check_restored_data p o r)
            (λ u s. At p o.namespace (command_run n exec_restore_data_check_command ∷ ms) s))
        e (check_restored_data-Reached ms r)
