-- ===== src/Kube/Calls.antt =====
-- Errors, and the calls that leave the program: to the API server (client-go and
-- controller-runtime), to the operating system and to the random source. Each call is recorded,
-- so that a theorem can speak of what the program asked for and in which order.
use tvk_plugins.Prelude.{String, Bool, true, false, List, [], ◌∷◌, ◌≡◌, refl, ap, ◌⊎◌, inl, inr}
use tvk_plugins.Kube.Objects.{
  Labels, GroupVersionKind, Pod, PersistentVolumeClaim, VolumeSnapshot, VolumeSnapshotClass, Object,
}

-- The first five are errors of the libraries, told apart by `IsNotFound`,
-- `IsGroupDiscoveryFailedError` and `ErrWaitTimeout`. The others are made by `fmt.Errorf`, which
-- keeps the text of an error and not its identity.
mutual
  pub data Error : Type 0 where
    not_found : String → Error
    forbidden : String → Error
    group_discovery_failed : String → Error
    wait_timeout : Error
    failed : String → Error
    -- tools/preflight/helper.go
    no_version_found : Error
    no_preferred_version : String → Error
    invalid_semver : String → Error
    snapshot_class_not_found : String → Error → Error
    pod_not_in_condition : String → String → Error
    exec_timeout : String → String → Error
    -- tools/preflight/exec/exec_to_pod.go
    empty_pod_or_container : Error
    -- tools/preflight/preflight.go
    checks_failed : Error
    binary_not_found : String → Error → Error
    namespace_inaccessible : Error → Error
    helm_too_old : Error
    kubernetes_too_old : Error
    rbac_not_enabled : Error
    driver_mismatch : String → String → Error
    creating_snapshot_class : String → Error → Error
    generating_suffix : Error → Error
    getting_crd : Error → Error
    aggregate : Errors → Error
    dns_unresolved : Error
    pod_not_ready : String → Error
    creating_snapshot : Error → Error
    snapshot_not_ready : String → Error → Error
    -- tools/preflight/cleanup.go
    deletion_failed : Error
    -- cmd/log-collector/cmd: helper.go and root.go
    empty_gvk_kind : Error
    gvk_syntax : Error
    index_out_of_range : Error
    selector_syntax : Error
    empty_config_kind : Error
    namespaces_of_cluster : Error
    -- internal/kube_helper.go
    no_kubeconfig : Error
    creating_rest_config : Error → Error
    -- `InitKubeEnv`
    nil_client_set : Error
    nil_runtime_client : Error

  pub data Errors : Type 0 where
    no_errors : Errors
    more_errors : Error → Errors → Errors

-- `kerrors.NewAggregate`
abbrev pub new_aggregate : List Error → Errors
new_aggregate [] = no_errors
new_aggregate (e ∷ es) = more_errors e (new_aggregate es)

-- `k8serrors.IsNotFound`
abbrev pub is_not_found : Error → Bool
is_not_found (not_found _) = true
is_not_found _ = false

-- `discovery.IsGroupDiscoveryFailedError`
abbrev pub is_group_discovery_failed : Error → Bool
is_group_discovery_failed (group_discovery_failed _) = true
is_group_discovery_failed _ = false

-- `err == k8swait.ErrWaitTimeout`
abbrev pub is_wait_timeout : Error → Bool
is_wait_timeout wait_timeout = true
is_wait_timeout _ = false

pub data Result {ℓ} (A : Type ℓ) : Type ℓ where
  ok : A → Result A
  err : Error → Result A

pub Result-cases {ℓ} :
    {A : Type ℓ} (r : Result A) → ((a : A) × (r ≡ ok a)) ⊎ ((e : Error) × (r ≡ err e))
Result-cases (ok a) = inl (a, refl)
Result-cases (err e) = inr (e, refl)

pub ok-path : {A : Type 0} {a b : A} → ok a ≡ ok b → a ≡ b
ok-path {A} {a} h = ap (λ r. elim r [ ok x ↦ x | err e ↦ a ]) h

-- The chain of calls that stops at the first error.
module _ {A B : Type 0} where
  unfoldable pub and_then : Result A → (A → Result B) → Result B
  and_then (ok a) f = f a
  and_then (err e) f = err e

  pub and_then-ok :
      (r : Result A) (f : A → Result B) {b : B}
      → and_then r f ≡ ok b
      → (a : A) × (r ≡ ok a) × (f a ≡ ok b)
  unfolding and_then
  and_then-ok (ok a) f h = (a, refl, h)
  and_then-ok (err e) f h = cc

abbrev pub is_ok {ℓ} : {A : Type ℓ} → Result A → Bool
is_ok (ok _) = true
is_ok (err _) = false

pub data Call : Type 0 where
  look_path : String → Call
  run_cmd : String → Call
  random : Call
  get_namespace : String → Call
  server_resources : String → Call
  server_version : Call
  server_groups : Call
  get_storage_class : String → Call
  get_crd : String → Call
  create_crd : String → Call
  list_snapshot_classes : String → Call
  get_snapshot_class : String → String → Call
  create_snapshot_class : VolumeSnapshotClass → Call
  create_pod : String → Pod → Call
  get_pod : String → String → Call
  create_claim : String → PersistentVolumeClaim → Call
  create_snapshot : VolumeSnapshot → Call
  get_snapshot : String → String → String → Call
  exec : String → String → String → List String → Call
  list_objects : GroupVersionKind → Labels → String → Call
  delete : Object → Call
  get_object : GroupVersionKind → String → String → Call
  patch : GroupVersionKind → String → String → Call
