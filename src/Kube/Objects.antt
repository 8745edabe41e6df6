-- ===== src/Kube/Objects.antt =====
-- The Kubernetes objects that the plugins build and read: the fields of `corev1.Pod`,
-- `corev1.PersistentVolumeClaim` and of unstructured objects that
-- tools/preflight/helper.go and tools/preflight/preflight.go set or look at. A Go map is an
-- association list; a pointer or an interface that may be nil is an `Option`.
use tvk_plugins.Prelude.{ℕ, String, Bool, Option, none, List, []}

-- `resource.Quantity`, by its text. Arithmetic on it is the library's.
pub record Quantity : Type 0 where
  pub text : String

-- A value that the program passes on unread (`corev1.Affinity`, `corev1.Toleration`).
pub record Opaque : Type 0 where
  pub text : String

abbrev pub Labels : Type 0
Labels = List (String × String)

abbrev pub ResourceList : Type 0
ResourceList = List (String × Quantity)

pub record ResourceRequirements : Type 0 where
  pub requests : ResourceList
  pub limits : ResourceList

-- `finalizers` is `none` for a nil slice.
pub record ObjectMeta : Type 0 where
  pub name : String
  pub namespace : String
  pub labels : Labels
  pub finalizers : Option (List String)

pub record GroupVersionKind : Type 0 where
  pub group : String
  pub version : String
  pub kind : String

pub record ContainerSecurity : Type 0 where
  pub add : List String
  pub allow_privilege_escalation : Bool
  pub read_only_root_filesystem : Bool
  pub privileged : Bool

pub record Probe : Type 0 where
  pub initial_delay_seconds : ℕ
  pub exec_command : List String

pub record VolumeMount : Type 0 where
  pub name : String
  pub mount_path : String

pub record Container : Type 0 where
  pub name : String
  pub image : String
  pub command : List String
  pub args : List String
  pub image_pull_policy : Option String
  pub resources : ResourceRequirements
  pub volume_mounts : List VolumeMount
  pub readiness_probe : Option Probe
  pub security_context : Option ContainerSecurity

pub record PodSecurity : Type 0 where
  pub run_as_non_root : Bool
  pub run_as_user : Option ℕ

pub record Volume : Type 0 where
  pub name : String
  pub claim_name : String
  pub read_only : Bool

pub record PodSpec : Type 0 where
  pub service_account_name : String
  pub node_selector : Labels
  pub affinity : Option Opaque
  pub tolerations : List Opaque
  pub image_pull_secrets : List String
  pub containers : List Container
  pub volumes : List Volume
  pub security_context : Option PodSecurity

pub record PodCondition : Type 0 where
  pub type : String
  pub status : String

-- `type_meta` is what `GetObjectKind().GroupVersionKind()` returns.
pub record Pod : Type 0 where
  pub type_meta : GroupVersionKind
  pub meta : ObjectMeta
  pub spec : PodSpec
  pub conditions : List PodCondition

pub record DataSource : Type 0 where
  pub kind : String
  pub name : String
  pub api_group : String

pub record PersistentVolumeClaim : Type 0 where
  pub type_meta : GroupVersionKind
  pub meta : ObjectMeta
  pub access_modes : List String
  pub storage_class_name : String
  pub storage_request : Quantity
  pub data_source : Option DataSource

-- What `unstructured.NestedBool` and `unstructured.NestedString` say of a field.
pub data Nested (A : Type 0) : Type 0 where
  absent : Nested A
  malformed : Nested A
  found : A → Nested A

-- A volume snapshot as an unstructured object.
pub record VolumeSnapshot : Type 0 where
  pub gvk : GroupVersionKind
  pub meta : ObjectMeta
  pub volume_snapshot_class_name : String
  pub persistent_volume_claim_name : String
  pub ready_to_use : Nested Bool

-- A volume snapshot class as an unstructured object; `driver` is `none` where the field is
-- missing or no string.
pub record VolumeSnapshotClass : Type 0 where
  pub gvk : GroupVersionKind
  pub name : String
  pub driver : Option String
  pub deletion_policy : Option String
  pub is_default_class : Nested String

-- Any other unstructured object, of which only kind and metadata are read.
pub record Unstructured : Type 0 where
  pub gvk : GroupVersionKind
  pub meta : ObjectMeta

-- `client.Object`: the dynamic types that reach `deleteK8sResource`.
pub data Object : Type 0 where
  pod : Pod → Object
  claim : PersistentVolumeClaim → Object
  unstructured : Unstructured → Object

abbrev pub object_meta : Object → ObjectMeta
object_meta (pod p) = p.meta
object_meta (claim c) = c.meta
object_meta (unstructured u) = u.meta

-- `GetObjectKind().GroupVersionKind()`
abbrev pub object_kind : Object → GroupVersionKind
object_kind (pod p) = p.type_meta
object_kind (claim c) = c.type_meta
object_kind (unstructured u) = u.gvk

abbrev pub no_gvk : GroupVersionKind
no_gvk = record { group = ""; version = ""; kind = "" }

-- The fields that a Go literal leaves out.
abbrev pub empty_pod_spec : PodSpec
empty_pod_spec = record {
  service_account_name = "";
  node_selector = [];
  affinity = none;
  tolerations = [];
  image_pull_secrets = [];
  containers = [];
  volumes = [];
  security_context = none;
}
