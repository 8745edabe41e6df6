-- ===== src/Scenarios/Cleaning.antt =====
-- Runs and cleanups against a server that holds one claim with a finalizer, and lets it go as documented.
use tvk_plugins.Prelude.{
  String, Bool, true, false, not, ◌&&◌, ◌||◌, none, some, List, [], ◌∷◌, ◌==◌, ◌≡◌, ◌≢◌, refl, ◌∙◌,
  sym, ap, inl, inr, subst, arith,
}
use tvk_plugins.Prelude.Tests.{if◌then◌else◌, Bool-cases}
use tvk_plugins.Prelude.Lists.{Any, lookup, insert}
use tvk_plugins.Kube.Objects.{VolumeSnapshotClass, no_gvk, absent, GroupVersionKind, Unstructured}
use tvk_plugins.Kube.Calls.{ok-path, Call, Error, Result, ok, err, not_found}
use tvk_plugins.Preflight.Footprint.{own_cleanup}
use tvk_plugins.Preflight.Options.{storage_snapshot_group}
use tvk_plugins.Preflight.Platform.{Platform}
use tvk_plugins.Preflight.Resources.{versions_of_group}
use tvk_plugins.Preflight.Cleanup.{
  Cleanup, cleanup_preflight_resources, res_labels, res_labels_of, delete_ns, cleanup_kinds,
}
use tvk_plugins.Preflight.Versions.{
  validate_kubectl, validate_cluster_access, validate_system_helm_version,
  extract_version_from_string, validate_kubernetes_version, validate_kubernetes_rbac,
}
use tvk_plugins.Preflight.Snapshots.{
  check_and_create_volume_snapshot_crds, validate_storage_snapshot_class,
}
use tvk_plugins.Preflight.Pods.{
  validate_required_pod_capabilities, validate_dns_resolution, validate_volume_snapshot,
}
use tvk_plugins.Preflight.Wait.{
  wait_until_pod_condition, poll_pod, exec_in_pod, wait_until_vol_snap_ready_to_use, poll_snapshot,
}
use tvk_plugins.Preflight.Specs.{create_dns_pod_spec, create_restore_pod_spec}
use tvk_plugins.Preflight.Exec.{
  log_verdict, pure, raise, lift, gets, ask, try, modify, ◌>>=◌, on_option, on_result,
}
use tvk_plugins.Preflight.Resources.{
  create_resource_name_suffix, get_server_preferred_version_for_group, delete_k8s_resource,
}
use tvk_plugins.Preflight.Run.{perform_preflight_checks}
use tvk_plugins.Preflight.Run.Passed.{run_milestones, perform-passes}
use tvk_plugins.Preflight.Pods.Milestones.{NamesAsked, InOrder}
use tvk_plugins.Preflight.Platform.Polls.{Polls}
use tvk_plugins.Preflight.Cleanup.Server.{ApiServer, IsSelected}
use tvk_plugins.Preflight.Cleanup.Emptied.{cleanup-Empties}
use tvk_plugins.Preflight.Cleanup.Granted.{IsWilling, IsGranted, cleanup-succeeds}
use tvk_plugins.Scenarios.Cluster.{platform, platform-Polls, start, options}

abbrev source_claim : Unstructured
source_claim = record {
  gvk = record { group = ""; version = "v1"; kind = "PersistentVolumeClaim" };
  meta = record {
    name = "source-pvc-abcdef";
    namespace = "default";
    labels = ("trilio", "tvk-preflight") ∷ ("preflight-run", "abcdef") ∷ [];
    finalizers = some ("kubernetes.io/pvc-protection" ∷ []);
  };
}

-- A deletion was asked for; and the finalizers were removed after one.
abbrev terminating : List Call → Bool
terminating [] = false
terminating (Call.delete _ ∷ h) = true
terminating (_ ∷ h) = terminating h

abbrev released : List Call → Bool
released [] = false
released (Call.patch _ _ _ ∷ h) = terminating h || released h
released (_ ∷ h) = released h

abbrev IsHeld : List Call → Unstructured → Type 0
IsHeld h x = (x ≡ source_claim) × (released h ≡ false)

abbrev IsLeaving : List Call → Unstructured → Type 0
IsLeaving h x = terminating h ≡ true

abbrev objects_of : List Call → GroupVersionKind → List Unstructured
objects_of h g =
    if g.kind == "PersistentVolumeClaim" && not (released h) then source_claim ∷ [] else []

abbrev claim_of : List Call → String → String → Result Unstructured
claim_of h name ns =
    if released h
    then err (not_found name)
    else ok
        (record source_claim { meta = record (source_claim.meta) { name = name; namespace = ns } })

abbrev snapshot_class : VolumeSnapshotClass
snapshot_class = record {
  gvk = no_gvk;
  name = "csi-snapclass";
  driver = some "driver";
  deletion_policy = none;
  is_default_class = absent;
}

abbrev holding : Platform
holding = record platform {
  cluster = record (platform.cluster) {
    list_snapshot_classes = λ h v. ok (snapshot_class ∷ []);
    list_objects = λ h g labels ns. ok (objects_of h g);
    get_object = λ h g name ns. claim_of h name ns;
  };
}

released-fewer : (h : List Call) (c : Call) → released (c ∷ h) ≡ false → released h ≡ false
released-fewer h (Call.patch g n ns) e = ground arith
released-fewer h _ e = e

terminating-kept : (h : List Call) (c : Call) → terminating h ≡ true → terminating (c ∷ h) ≡ true
terminating-kept h (Call.delete x) e = refl
terminating-kept h _ e = e

objects_of_lem :
    (h : List Call) (g : GroupVersionKind)
    → source_claim.gvk ≡ g
    → released h ≡ false
    → objects_of h g ≡ source_claim ∷ []
objects_of_lem h g e k = subst (λ x. objects_of h x ≡ source_claim ∷ []) e (rw k refl)

holds :
    (h : List Call) (g : GroupVersionKind) (objs : List Unstructured) (x : Unstructured)
    → x ≡ source_claim
    → x.gvk ≡ g
    → released h ≡ false
    → ok (objects_of h g) ≡ ok objs
    → Any (λ y. x ≡ y) objs
holds h g objs x same of_kind k e =
    let l : source_claim ∷ [] ≡ objs =
      sym (objects_of_lem h g (ap (λ y. y.gvk) (sym same) ∙ of_kind) k) ∙ cc in
    subst (λ l. Any (λ y. x ≡ y) l) l (inl same)

has_finalizers : (x : Unstructured) → x ≡ source_claim → ¬ (x.meta.finalizers ≡ none)
has_finalizers x same bare = cc (ap (λ y. y.meta.finalizers) same)

-- The claim, under the name that was asked for.
abbrev named_claim : String → String → Unstructured
named_claim name ns = record source_claim {
  meta = record (source_claim.meta) { name = name; namespace = ns };
}

claim_of_held :
    (h : List Call) (name ns : String)
    → released h ≡ false
    → claim_of h name ns ≡ ok (named_claim name ns)
claim_of_held h name ns k = rw k refl

fetched :
    (h : List Call) (name ns : String) (y : Unstructured)
    → claim_of h name ns ≡ ok y
    → (y.meta.name ≡ name) × (y.meta.namespace ≡ ns)
fetched h name ns y e = elim (Bool-cases (released h)) [
  | inl k ↦ (let r : claim_of h name ns ≡ err (not_found name) = rw k refl in cc)
  | inr k ↦
      (let same : named_claim name ns ≡ y = cc (claim_of_held h name ns k) in
        (ap (λ z. z.meta.name) (sym same), ap (λ z. z.meta.namespace) (sym same)))
]

found :
    (h : List Call) (name ns : String) (e : Error) → released h ≡ false → claim_of h name ns ≢ err e
found h name ns e k f = cc (claim_of_held h name ns k)

claim_of-IsGranted : (h : List Call) (name ns : String) → IsGranted (claim_of h name ns)
claim_of-IsGranted h name ns = elim (Bool-cases (released h)) [
  | inl k ↦ rw k refl
  | inr k ↦ rw k tt
]

holding-ApiServer : ApiServer holding IsHeld IsLeaving
holding-ApiServer = record {
  fewer = λ h c x q (e, k). (e, released-fewer h c k);
  lists = λ h g labels ns objs x e (same, k) sel. holds h g objs x same sel.of_kind k e;
  deletes = λ h x reply e bare (same, k). has_finalizers x same bare;
  terminates = λ h x reply e. refl;
  goes_on = λ h c x q e. terminating-kept h c e;
  fetches = λ h g name ns y e. fetched h name ns y e;
  patches = λ h x reply e t (same, k). ground arith;
  not_deleted = λ h x e f missing. cc;
  not_fetched = λ h x e f missing (same, k). found h x.meta.name x.meta.namespace e k f;
  not_patched = λ h x e f missing. cc;
}

IsWilling-holding : IsWilling holding
IsWilling-holding = record {
  groups = λ h. refl;
  lists = λ h g labels ns. (objects_of h g, refl);
  deletes = λ h x. tt;
  fetches = λ h g n ns. claim_of-IsGranted h n ns;
  patches = λ h g n ns. tt;
}

abbrev clean_run : Cleanup
clean_run = own_cleanup options "abcdef"

cleanup-succeeds_example : (cleanup_preflight_resources holding clean_run start).0 ≡ ok tt
cleanup-succeeds_example = cleanup-succeeds holding IsWilling-holding clean_run start

claim-IsSelected :
    Any
      (λ g. IsSelected g (res_labels clean_run) (delete_ns clean_run) source_claim)
      (cleanup_kinds
        (versions_of_group storage_snapshot_group (holding.server_groups start.calls).0))
unfolding cleanup_kinds versions_of_group res_labels_of delete_ns lookup insert
claim-IsSelected =
    inr (inr (inl (record { of_kind = refl; labelled = (refl, (refl, tt)); inside = refl })))

cleanup-Empties_example :
    ¬ IsHeld (cleanup_preflight_resources holding clean_run start).1.calls source_claim
cleanup-Empties_example =
    cleanup-Empties holding IsHeld IsLeaving holding-ApiServer clean_run start source_claim
      (cleanup-succeeds holding IsWilling-holding clean_run start) claim-IsSelected

suffix_of_run : (create_resource_name_suffix holding start).0 ≡ ok "abcdef"
unfolding create_resource_name_suffix pure lift ask ◌>>=◌
suffix_of_run = refl

run_passes : (perform_preflight_checks holding options start).0 ≡ ok tt
unfolding perform_preflight_checks pure raise lift gets ask try modify ◌>>=◌ on_option on_result
    create_resource_name_suffix log_verdict validate_kubectl validate_cluster_access
    validate_system_helm_version extract_version_from_string validate_kubernetes_version
    validate_kubernetes_rbac check_and_create_volume_snapshot_crds
    validate_required_pod_capabilities wait_until_pod_condition poll_pod
    get_server_preferred_version_for_group validate_storage_snapshot_class validate_dns_resolution
    exec_in_pod validate_volume_snapshot wait_until_vol_snap_ready_to_use poll_snapshot
    create_restore_pod_spec create_dns_pod_spec delete_k8s_resource
run_passes = refl

holding-Polls : Polls holding
holding-Polls = record { keeps = platform-Polls.keeps; done = platform-Polls.done }

holding-NamesAsked : NamesAsked holding
holding-NamesAsked = record {
  of_pod = λ h ns spec pod e. ap (λ x. x.meta.name) (sym (ok-path e));
  of_fetched = λ h ns name pod e. ap (λ x. x.meta.name) (sym (ok-path e));
  of_claim = λ h ns spec claim e. ap (λ x. x.meta.name) (sym (ok-path e));
  of_snapshot = λ h spec snapshot e.
      (ap (λ x. x.meta.name) (sym (ok-path e)), ap (λ x. x.meta.namespace) (sym (ok-path e)));
}

perform-passes_example :
    (ver : String) × (class : String) × (class' : String) × InOrder holding "default"
      (run_milestones options "abcdef" ver class class')
      (perform_preflight_checks holding options start).1.calls
perform-passes_example =
    perform-passes holding holding-Polls holding-NamesAsked options "abcdef" start suffix_of_run
      run_passes
