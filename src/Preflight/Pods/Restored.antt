-- ===== src/Preflight/Pods/Restored.antt =====
-- The milestones of a volume snapshot check, in their order: `validateVolumeSnapshot` of
-- tools/preflight/preflight.go.
use Prim.Native.String.{◌++◌}
use tvk_plugins.Prelude.{String, List, ◌∷◌, ◌≡◌, ◌∙◌}
use tvk_plugins.Kube.Objects.{Pod, VolumeSnapshot, Object}
use tvk_plugins.Action.Triple.{Triple-bind, Triple-given, Triple-to}
use tvk_plugins.Preflight.Exec.{State, gets, ◌>>=◌}
use tvk_plugins.Preflight.Exec.Keeps.{Keeps-gets}
use tvk_plugins.Preflight.Resources.{delete_k8s_resource}
use tvk_plugins.Preflight.Resources.Keeps.{get_server_preferred_version_for_group-Keeps}
use tvk_plugins.Preflight.Options.{Run, exec_restore_data_check_command}
use tvk_plugins.Preflight.Platform.{Platform}
use tvk_plugins.Preflight.Platform.Polls.{Polls}
use tvk_plugins.Preflight.Specs.{
  create_volume_snapshot_pvc_spec, create_volume_snapshot_pod_spec, create_volume_snapsot_spec,
  create_restore_pvc_spec, create_restore_pod_spec,
}
use tvk_plugins.Preflight.Pods.{
  get_pod, create_snapshot_from_pvc, create_restore_pod_from_snapshot, check_restored_data,
  validate_volume_snapshot,
}
use tvk_plugins.Preflight.Pods.Milestones.{
  Milestone, claim_created, pod_created, pod_ready, snapshot_created, snapshot_ready, command_run,
  pod_deleted, At, At-Stable, NamesAsked, Reached,
}
use tvk_plugins.Preflight.Pods.Steps.{
  get_pod-Reached, create_source_pvc-Reached, create_source_pod-Reached,
}
use tvk_plugins.Preflight.Pods.Restoring.{
  kept-Reached, deleted-Reached, restoration-Reached, checked-Reached,
}

abbrev source_pvc : String → String
source_pvc suffix = "source-pvc-" ++ suffix

abbrev source_pod : String → String
source_pod suffix = "source-pod-" ++ suffix

module _ (o : Run) (suffix ver : String) where
  abbrev snapshot_spec : String → String → VolumeSnapshot
  snapshot_spec name class =
      create_volume_snapsot_spec name class o.namespace ver (source_pvc suffix) suffix

  -- A snapshot of the source claim was made and ready, a claim made from it, and a pod with that
  -- claim made and ready.
  abbrev pod_restored : String → String → String → String → List Milestone → List Milestone
  pod_restored snapshot class pvc pod before =
      pod_ready pod
      ∷ pod_created (create_restore_pod_spec pod pvc suffix o)
      ∷ claim_created (create_restore_pvc_spec pvc snapshot suffix o)
      ∷ snapshot_ready ver snapshot
      ∷ snapshot_created (snapshot_spec snapshot class)
      ∷ before

module _ (o : Run) (suffix ver : String) (before : List Milestone) where
  -- The source claim was made, and a pod that writes the data into it was made and ready.
  abbrev source_ready : List Milestone
  source_ready =
      pod_ready (source_pod suffix)
      ∷ pod_created (create_volume_snapshot_pod_spec (source_pvc suffix) o suffix)
      ∷ claim_created (create_volume_snapshot_pvc_spec o (source_pvc suffix) suffix)
      ∷ before

  abbrev restored_first : String → List Milestone
  restored_first class =
      pod_restored o suffix ver ("snapshot-source-pvc-" ++ suffix) class ("restored-pvc-" ++ suffix)
        ("restored-pod-" ++ suffix) source_ready

  -- The data check ran in the restored pod and succeeded.
  abbrev checked_first : String → List Milestone
  checked_first class =
      command_run ("restored-pod-" ++ suffix) exec_restore_data_check_command ∷ restored_first class

  abbrev unmounted : String → List Milestone
  unmounted class = pod_deleted (source_pod suffix) ∷ checked_first class

  abbrev restored_again : String → String → List Milestone
  restored_again class class' =
      pod_restored o suffix ver ("unmounted-source-pvc-" ++ suffix) class'
        ("unmounted-restored-pvc-" ++ suffix) ("unmounted-restored-pod-" ++ suffix)
        (unmounted class)

  -- All of them, the newest first, for the snapshot classes that were read before each snapshot.
  abbrev pub milestones : String → String → List Milestone
  milestones class class' =
      command_run ("unmounted-restored-pod-" ++ suffix) exec_restore_data_check_command
      ∷ restored_again class class'

module _ (p : Platform) (polls : Polls p) (names : NamesAsked p) (o : Run)
    (before : List Milestone) where
  -- The milestones were reached, of some version of the snapshot API and two snapshot classes.
  abbrev Went : String → Unit {0} → State → Type 0
  Went suffix u s =
      (ver : String) × (class : String) × (class' : String) × At p o.namespace
        (milestones o suffix ver before class class') s

  -- From the deletion of the source pod on.
  again-Reached :
      (suffix ver class : String) (src : Pod)
      → src.meta.name ≡ source_pod suffix
      → Reached
          (At p o.namespace (checked_first o suffix ver before class))
          (delete_k8s_resource p (Object.pod src) >>= λ u.
            gets (λ s. s.storage_vol_snap_class) >>= λ class'.
            create_snapshot_from_pvc p o
              ("unmounted-source-pvc-" ++ suffix)
              class'
              ver
              (source_pvc suffix)
              suffix
            >>= λ v.
                create_restore_pod_from_snapshot p o v
                  ("unmounted-restored-pvc-" ++ suffix)
                  ("unmounted-restored-pod-" ++ suffix)
                  suffix
                >>= check_restored_data p o)
          (Went suffix)
  again-Reached suffix ver class src same =
      Triple-bind _ _
        (deleted-Reached p polls names o (checked_first o suffix ver before class) src _ same)
        (λ u.
          Triple-bind _ _
            (kept-Reached p polls names o (unmounted o suffix ver before class) _ (Keeps-gets _))
            (λ class'.
              restoration-Reached p polls names o (unmounted o suffix ver before class) suffix ver _
                class' _ _ _ _
                (λ r same_r.
                  Triple-to _
                    (checked-Reached p polls names o
                      (restored_again o suffix ver before class class') r _ same_r)
                    (λ v t h. (ver, class, class', h)) (λ t h. tt))))

  -- From the source pod on.
  first-Reached :
      (suffix ver : String) (src : Pod)
      → src.meta.name ≡ source_pod suffix
      → Reached
          (At p o.namespace (source_ready o suffix ver before))
          (gets (λ s. s.storage_vol_snap_class) >>= λ class.
            create_snapshot_from_pvc p o
              ("snapshot-source-pvc-" ++ suffix)
              class
              ver
              (source_pvc suffix)
              suffix
            >>= λ v.
                create_restore_pod_from_snapshot p o v
                  ("restored-pvc-" ++ suffix)
                  ("restored-pod-" ++ suffix)
                  suffix
                >>= λ r. check_restored_data p o r >>= λ u. get_pod p o src.meta.name >>= λ again.
                    delete_k8s_resource p (Object.pod again) >>= λ u.
                    gets (λ s. s.storage_vol_snap_class) >>= λ class'.
                    create_snapshot_from_pvc p o
                      ("unmounted-source-pvc-" ++ suffix)
                      class'
                      ver
                      (source_pvc suffix)
                      suffix
                    >>= λ v.
                        create_restore_pod_from_snapshot p o v
                          ("unmounted-restored-pvc-" ++ suffix)
                          ("unmounted-restored-pod-" ++ suffix)
                          suffix
                        >>= check_restored_data p o)
          (Went suffix)
  first-Reached suffix ver src same =
      Triple-bind _ _
        (kept-Reached p polls names o (source_ready o suffix ver before) _ (Keeps-gets _))
        (λ class.
          restoration-Reached p polls names o (source_ready o suffix ver before) suffix ver _ class
            _ _ _ _
            (λ r same_r.
              Triple-bind _ _
                (checked-Reached p polls names o (restored_first o suffix ver before class) r _
                  same_r)
                (λ u.
                  Triple-bind _ _
                    (get_pod-Reached p polls names o (checked_first o suffix ver before class) _)
                    (λ again.
                      Triple-given _
                        (λ same_again. again-Reached suffix ver class again (same_again ∙ same))))))

  pub validate-Reached :
      (suffix : String)
      → Reached (At p o.namespace before) (validate_volume_snapshot p o suffix) (Went suffix)
  unfolding validate_volume_snapshot
  validate-Reached suffix =
      Triple-bind _ _
        (kept-Reached p polls names o before _
          (get_server_preferred_version_for_group-Keeps (At-Stable p o.namespace before) p tt _))
        (λ ver. Triple-bind _ _ (create_source_pvc-Reached p polls names o before suffix) (λ c.
          Triple-given _ (λ same. rw same (
            Triple-bind _ _
              (create_source_pod-Reached p polls names o
                (claim_created (create_volume_snapshot_pvc_spec o (source_pvc suffix) suffix)
                  ∷ before)
                suffix (source_pvc suffix))
              (λ src. Triple-given _ (λ same_src. first-Reached suffix ver src same_src))))))
