-- ===== src/Preflight/Cleanup/Scope.antt =====
-- What a cleanup can touch: nothing but what the server lists for its labels in its namespace; and
-- which of the objects of a run its labels select (`CleanupPreflightResources` against
-- `getPreflightResourceLabels`).
use Prim.Native.String.{◌++◌, len}
use tvk_plugins.Prelude.{
  ℕ, zero, suc, String, [], some, ◌≡◌, ◌≢◌, refl, sym, subst, ap, ◌==◌, eq_iff, arith, inl, inr,
}
use text.Mathlib.TextPositions.{len-append}
use tvk_plugins.Prelude.Tests.{Bool-cases}
use tvk_plugins.Prelude.Lists.{All, lookup, insert}
use tvk_plugins.Kube.Objects.{Labels, Unstructured, unstructured}
use tvk_plugins.Kube.Calls.{Call, server_groups, list_objects, delete, get_object, patch}
use tvk_plugins.Preflight.Exec.{State}
use tvk_plugins.Preflight.Exec.Keeps.{Stable}
use tvk_plugins.Preflight.Platform.{Platform}
use tvk_plugins.Preflight.Options.{Run, label_preflight_run_key}
use tvk_plugins.Preflight.Specs.{
  get_preflight_resource_labels, Capability, create_pod_spec_with_capability, create_dns_pod_spec,
  create_volume_snapshot_pvc_spec, create_volume_snapshot_pod_spec, create_volume_snapsot_spec,
  create_restore_pvc_spec, create_restore_pod_spec,
}
use tvk_plugins.Preflight.Pods.{indexed_suffix}
use tvk_plugins.Preflight.Footprint.{own_cleanup}
use tvk_plugins.Preflight.Cleanup.{
  Cleanup, res_labels_of, res_labels, delete_ns, cleanup_preflight_resources,
}
use tvk_plugins.Preflight.Cleanup.Keeps.{ListsOnly, cleanup_preflight_resources-Keeps}

-- The calls of a cleanup: it reads the API groups, lists with its own selector and namespace, and
-- deletes and patches what it has listed.
abbrev pub CleanupCall : Cleanup → (Unstructured → Type 0) → Call → Type 0
CleanupCall co Good server_groups = Unit
CleanupCall co Good (list_objects _ labels ns) = (labels ≡ res_labels co) × (ns ≡ delete_ns co)
CleanupCall co Good (delete (unstructured u)) = Good u
CleanupCall co Good (get_object _ _ _) = Unit
CleanupCall co Good (patch _ _ _) = Unit
CleanupCall co Good _ = ⊥

AllCalls-Stable : (Q : Call → Type 0) → Stable (λ s. All Q s.calls) Q
AllCalls-Stable Q = record { call = λ s c q h. (q, h); fields = λ s a b h. h }

-- From a state with no calls: if whatever the server lists for the labels and the namespace of a cleanup is `Good`, then the
-- cleanup, whether it succeeds or not, deletes only `Good` objects, lists only with its own labels
-- in its own namespace, and makes no other call than to read the API groups and to fetch and patch
-- objects; it creates nothing and executes nothing.
pub cleanup-CleanupCall :
    (p : Platform) (co : Cleanup) (Good : Unstructured → Type 0) (s : State)
    → ListsOnly p (res_labels co) (delete_ns co) Good
    → s.calls ≡ []
    → All (CleanupCall co Good) (cleanup_preflight_resources p co s).1.calls
cleanup-CleanupCall p co Good s lists h =
    (cleanup_preflight_resources-Keeps (AllCalls-Stable (CleanupCall co Good)) p {Good = Good}
        (λ u g. g) (λ g n ns. tt) (λ g n ns. tt) co lists tt (λ g. (refl, refl))).at
      s (subst (All (CleanupCall co Good)) (sym h) tt)

-- `client.MatchingLabels`: each label of the selector, with its value.
abbrev pub Selects : Labels → Labels → Type 0
Selects selector labels = All (λ l. lookup l.0 labels ≡ some l.1) selector

Selects-run : (uid : String) → Selects (res_labels_of uid) (get_preflight_resource_labels uid)
unfolding res_labels_of insert lookup get_preflight_resource_labels
Selects-run uid = elim (Bool-cases (uid == "")) [
  | inl e ↦ rw e (refl, tt)
  | inr e ↦ rw e (refl, (refl, tt))
]

suffix-ne : (pre suffix : String) (n : ℕ) → len pre ≡ suc n → pre ++ suffix ≢ suffix
suffix-ne pre suffix n h e = omega (arith, len-append pre suffix, ap len e)

indexed_suffix-ne : (i : ℕ) (suffix : String) → indexed_suffix i suffix ≢ suffix
unfolding indexed_suffix
indexed_suffix-ne zero suffix = suffix-ne "0-" suffix 1 refl
indexed_suffix-ne (suc zero) suffix = suffix-ne "1-" suffix 1 refl
indexed_suffix-ne (suc (suc i)) suffix = suffix-ne "2-" suffix 1 refl

-- Every object that the DNS check and the volume snapshot check of a run create carries labels that
-- the cleanup with the suffix of the run as its uid selects, whatever the other options are.
pub created-Selected :
    (o : Run) (suffix a b c d : String)
    → let selector = res_labels_of suffix in
      Selects selector (create_dns_pod_spec o suffix).meta.labels
      × Selects selector (create_volume_snapshot_pvc_spec o a suffix).meta.labels
      × Selects selector (create_volume_snapshot_pod_spec a o suffix).meta.labels
      × Selects selector (create_volume_snapsot_spec a b o.namespace c d suffix).meta.labels
      × Selects selector (create_restore_pvc_spec a b suffix o).meta.labels
      × Selects selector (create_restore_pod_spec a b suffix o).meta.labels
unfolding create_dns_pod_spec create_volume_snapshot_pvc_spec create_volume_snapshot_pod_spec
    create_volume_snapsot_spec create_restore_pvc_spec create_restore_pod_spec
created-Selected o suffix a b c d = let h = Selects-run suffix in (h, h, h, h, h, h)

Selects-label :
    (uid : String) (labels : Labels)
    → uid ≢ ""
    → Selects (res_labels_of uid) labels
    → lookup label_preflight_run_key labels ≡ some uid
unfolding res_labels_of insert
Selects-label uid labels ne = elim (Bool-cases (uid == "")) [
  | inl e ↦ λ h. absurd (ne ((eq_iff uid "").0 e))
  | inr e ↦ rw e (λ h. h.0)
]

run_label :
    (uid : String) → lookup label_preflight_run_key (get_preflight_resource_labels uid) ≡ some uid
unfolding lookup get_preflight_resource_labels
run_label uid = refl

-- The pods of the capability check are labelled with the suffix behind an index: where the suffix
-- is not empty, the cleanup of their own run never selects one, and the cleanup of all runs does.
pub capability_pod-not-Selected :
    (o : Run) (i : ℕ) (suffix : String) (c : Capability)
    → suffix ≢ ""
    → (¬ Selects
        (res_labels (own_cleanup o suffix))
        (create_pod_spec_with_capability o (indexed_suffix i suffix) c).meta.labels)
      × Selects
          (res_labels_of "")
          (create_pod_spec_with_capability o (indexed_suffix i suffix) c).meta.labels
unfolding create_pod_spec_with_capability
capability_pod-not-Selected o i suffix c ne = (
  (λ h. indexed_suffix-ne i suffix (
      cc (
        run_label (indexed_suffix i suffix),
        Selects-label suffix (get_preflight_resource_labels (indexed_suffix i suffix)) ne h,
      ))),
  (unfold res_labels_of lookup get_preflight_resource_labels in (refl, tt)),
)
