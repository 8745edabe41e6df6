-- ===== src/Kube/Cluster.antt =====
-- The libraries' side of each call, as a parameter. A reply may depend on every call made before
-- (`List Call`, the newest first), so a theorem about all clusters covers a cluster that changes
-- between two calls, refuses, or answers wrongly.
use tvk_plugins.Prelude.{ℕ, String, Bool, Option, List}
use tvk_plugins.Kube.Objects.{
  Labels, GroupVersionKind, Pod, PersistentVolumeClaim, VolumeSnapshot, VolumeSnapshotClass, Object,
  Unstructured,
}
use tvk_plugins.Kube.Calls.{Error, Result, Call}

-- `metav1.APIGroup`: `versions` are the `Version`s of its versions.
pub record ApiGroup : Type 0 where
  pub name : String
  pub versions : List String
  pub preferred_version : String

-- `version.Info`: the field `GitVersion` and the method `String`.
pub record ServerVersion : Type 0 where
  pub git_version : String
  pub string : String

-- A parsed `semVersion.Version`, by its text.
pub record Version : Type 0 where
  pub original : String

-- `exec.Response` without the output that is only logged
pub record ExecReply : Type 0 where
  pub error : Option Error

pub record Cluster : Type 0 where
  -- the operating system
  pub look_path : List Call → String → Result String
  pub run_cmd : List Call → String → Result String
  pub random : List Call → Result ℕ
  -- discovery; `server_groups` may come with an error and a partial list
  pub server_resources : List Call → String → Result (List String)
  pub server_version : List Call → Result ServerVersion
  pub server_groups : List Call → List ApiGroup × Option Error
  -- the API server
  pub get_namespace : List Call → String → Result String
  pub get_storage_class : List Call → String → Result String
  pub get_crd : List Call → String → Result String
  pub create_crd : List Call → String → Result String
  pub list_snapshot_classes : List Call → String → Result (List VolumeSnapshotClass)
  pub get_snapshot_class : List Call → String → String → Result VolumeSnapshotClass
  pub create_snapshot_class : List Call → VolumeSnapshotClass → Result String
  pub create_pod : List Call → String → Pod → Result Pod
  pub get_pod : List Call → String → String → Result Pod
  pub create_claim : List Call → String → PersistentVolumeClaim → Result PersistentVolumeClaim
  pub create_snapshot : List Call → VolumeSnapshot → Result VolumeSnapshot
  pub get_snapshot : List Call → String → String → String → Result VolumeSnapshot
  pub exec : List Call → String → String → String → List String → Option ExecReply
  pub list_objects : List Call → GroupVersionKind → Labels → String → Result (List Unstructured)
  pub delete : List Call → Object → Result String
  pub get_object : List Call → GroupVersionKind → String → String → Result Unstructured
  pub patch : List Call → GroupVersionKind → String → String → Result String
  -- pure functions of the libraries
  pub new_version : String → Result Version
  pub new_semver : String → Result (Option Version)
  pub less_than : Version → Version → Bool
  pub extract_group_versions : List ApiGroup → List String
  pub parse_group_version : String → Result (String × String)
  -- the embedded manifests: `crdYamlFiles.ReadFile`, then `yaml.Unmarshal`
  pub read_file : String → Result String
  pub unmarshal_crd : String → Result String
