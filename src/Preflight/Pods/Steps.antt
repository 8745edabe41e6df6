-- ===== src/Preflight/Pods/Steps.antt =====
-- The source and the snapshot of a volume snapshot check, `validateVolumeSnapshot` of tools/preflight/preflight.go, and
-- the milestones that each reaches.
use Prim.Native.String.{◌++◌}
use tvk_plugins.Prelude.{String, List, [], ◌∷◌, ◌≡◌, refl, ◌∙◌, subst}
use tvk_plugins.Kube.Objects.{Container}
use tvk_plugins.Kube.Calls.{snapshot_not_ready, is_wait_timeout}
use tvk_plugins.Action.Triple.{
  Triple-bind, Triple-pure, Triple-from, Triple-given, Triple-if, Triple-of_ok, Triple-raise,
  Triple-return, Triple-try,
}
use tvk_plugins.Preflight.Exec.{raise, ask}
use tvk_plugins.Preflight.Options.{Run}
use tvk_plugins.Preflight.Platform.{Platform}
use tvk_plugins.Preflight.Platform.Polls.{Polls}
use tvk_plugins.Preflight.Specs.{
  create_volume_snapshot_pvc_spec, create_volume_snapshot_pod_spec, create_volume_snapsot_spec,
}
use tvk_plugins.Preflight.Pods.{
  get_pod, create_source_pvc, create_source_pod_from_pvc, create_snapshot_from_pvc, first_container,
}
use tvk_plugins.Preflight.Pods.Milestones.{
  Milestone, claim_created, pod_created, pod_ready, snapshot_created, snapshot_ready, At, At-Stable,
  NamesAsked, Reached, asked-Reached, create_pod-Reached, create_claim-Reached,
  wait_until_ready-Reached, wait_snapshot-Reached,
}

module _ (p : Platform) (polls : Polls p) (names : NamesAsked p) (o : Run) where
  -- A pod under the name that was asked for.
  pub get_pod-Reached :
      (ms : List Milestone) (name : String)
      → Reached
          (At p o.namespace ms)
          (get_pod p o name)
          (λ pod s. At p o.namespace ms s × (pod.meta.name ≡ name))
  unfolding get_pod ask
  get_pod-Reached ms name = Triple-of_ok _ (λ s before pod e. (
    (At-Stable p o.namespace ms).call s _ tt before,
    names.of_fetched s.calls o.namespace name pod e,
  ))

  pub create_source_pvc-Reached :
      (ms : List Milestone) (suffix : String)
      → let spec = create_volume_snapshot_pvc_spec o ("source-pvc-" ++ suffix) suffix in
        Reached (At p o.namespace ms) (create_source_pvc p o suffix) (λ c s.
          At p o.namespace (claim_created spec ∷ ms) s × (c.meta.name ≡ "source-pvc-" ++ suffix))
  unfolding create_source_pvc create_volume_snapshot_pvc_spec
  create_source_pvc-Reached ms suffix = create_claim-Reached p o names ms _

  pub first_container-Reached :
      (ms : List Milestone) (cs : List Container)
      → Reached (At p o.namespace ms) (first_container cs) (λ c s. At p o.namespace ms s)
  unfolding first_container
  first_container-Reached ms [] = Triple-of_ok _ (λ s before u e. unfold raise in cc)
  first_container-Reached ms (c ∷ cs) = Triple-pure c.name

  source_pod_name :
      (suffix pvc : String)
      → (create_volume_snapshot_pod_spec pvc o suffix).meta.name ≡ "source-pod-" ++ suffix
  unfolding create_volume_snapshot_pod_spec
  source_pod_name suffix pvc = refl

  pub create_source_pod-Reached :
      (ms : List Milestone) (suffix pvc : String)
      → let spec = create_volume_snapshot_pod_spec pvc o suffix in
        Reached (At p o.namespace ms) (create_source_pod_from_pvc p o suffix pvc) (λ pod s.
          At p o.namespace (pod_ready ("source-pod-" ++ suffix) ∷ pod_created spec ∷ ms) s
          × (pod.meta.name ≡ "source-pod-" ++ suffix))
  unfolding create_source_pod_from_pvc
  create_source_pod-Reached ms suffix pvc =
      let spec = create_volume_snapshot_pod_spec pvc o suffix in
      Triple-bind _ _ (create_pod-Reached p o names ms _) (λ src. Triple-given _ (λ same.
        rw (same ∙ source_pod_name suffix pvc) (
          Triple-try _ _ _ (wait_until_ready-Reached p o polls (pod_created spec) ms _ (λ h no. no))
            (λ e. Triple-raise _)
            (λ u.
              get_pod-Reached (pod_ready ("source-pod-" ++ suffix) ∷ pod_created spec ∷ ms) _))))

  pub snapshot_names :
      (name class ver pvc uid : String)
      → let spec = create_volume_snapsot_spec name class o.namespace ver pvc uid in
        (spec.meta.name ≡ name) × (spec.meta.namespace ≡ o.namespace)
  unfolding create_volume_snapsot_spec
  snapshot_names name class ver pvc uid = (refl, refl)

  pub create_snapshot-Reached :
      (ms : List Milestone) (name class ver pvc uid : String)
      → let spec = create_volume_snapsot_spec name class o.namespace ver pvc uid in
        Reached (At p o.namespace ms) (create_snapshot_from_pvc p o name class ver pvc uid) (λ v s.
          At p o.namespace (snapshot_ready ver name ∷ snapshot_created spec ∷ ms) s
          × (v.meta.name ≡ name))
  unfolding create_snapshot_from_pvc
  create_snapshot-Reached ms name class ver pvc uid =
      let spec = create_volume_snapsot_spec name class o.namespace ver pvc uid in
      let (same, inside) = snapshot_names name class ver pvc uid in
      Triple-try _ _ _
        (asked-Reached p o (snapshot_created spec) ms _ _ (λ h v e. (refl, rw e refl)))
        (λ e. Triple-raise _)
        (λ v.
          Triple-from _ (λ s (before, (h, e)). (before, names.of_snapshot h spec v e))
            (Triple-given _ (λ (n, m).
              Triple-try _ _ _
                (wait_snapshot-Reached p o polls (snapshot_created spec) ms v ver _ (m ∙ inside)
                  (λ h no. no))
                (λ e.
                  Triple-if (is_wait_timeout e) (raise (snapshot_not_ready v.meta.name e)) (raise e)
                    (λ t. Triple-raise _) (λ t. Triple-raise _))
                (λ u. Triple-return v (λ s h. (
                  subst
                      (λ k. At p o.namespace (snapshot_ready ver k ∷ snapshot_created spec ∷ ms) s)
                      (n ∙ same) h,
                  n ∙ same,
                ))))))
