-- ===== src/Collector/Objects.antt =====
-- What the log-collector reads from the cluster: tools/log-collector/log_collector.go and helper.go.
-- An unstructured object is the fields that the code looks at or removes, and the rest of it.
use tvk_plugins.Prelude.{String, Bool, Option, none, some, List, []}
use tvk_plugins.Kube.Objects.{Labels, Opaque, Nested, absent, malformed, found}
use tvk_plugins.Kube.Calls.{failed, Result, ok, err}

pub record OwnerReference : Type 0 where
  pub kind : String
  pub name : String

pub record Metadata : Type 0 where
  pub name : String
  pub namespace : String
  pub labels : Labels
  pub owner_references : List OwnerReference
  pub annotations : Option Opaque

pub record InvolvedObject : Type 0 where
  pub api_version : Nested String
  pub namespace : Nested String
  pub kind : Nested String
  pub name : Nested String

-- `crd_group`, `starting_csv`, `subscription_name` and `license_key` are the fields `group`,
-- `startingCSV`, `name` and `key` of `spec`; `metadata` and `involved_object` are `none` where the
-- object has no such field.
pub record KubeObject : Type 0 where
  pub kind : String
  pub metadata : Option Metadata
  pub involved_object : Option InvolvedObject
  pub crd_group : Nested String
  pub starting_csv : Nested String
  pub subscription_name : Nested String
  pub license_key : Option Opaque
  pub rest : Opaque

abbrev pub no_metadata : Metadata
no_metadata = record {
  name = "";
  namespace = "";
  labels = [];
  owner_references = [];
  annotations = none;
}

abbrev pub metadata_or : Option Metadata → Metadata
metadata_or none = no_metadata
metadata_or (some m) = m

abbrev pub metadata_of : KubeObject → Metadata
metadata_of o = metadata_or o.metadata

abbrev pub get_name : KubeObject → String
get_name o = (metadata_of o).name

abbrev pub get_namespace : KubeObject → String
get_namespace o = (metadata_of o).namespace

abbrev pub not_involved : InvolvedObject
not_involved = record { api_version = absent; namespace = absent; kind = absent; name = absent }

abbrev pub involved_of : KubeObject → InvolvedObject
involved_of o = elim o.involved_object [ none ↦ not_involved | some i ↦ i ]

-- `unstructured.NestedString`: a missing field is no error and reads as "".
abbrev pub nested_string : Nested String → Result String
nested_string absent = ok ""
nested_string malformed = err (failed "accessor error: not a string")
nested_string (found s) = ok s

-- `apiv1.APIResource`
pub record ApiResource : Type 0 where
  pub name : String
  pub group : String
  pub kind : String
  pub namespaced : Bool
  pub verbs : List String

-- `apiv1.APIResourceList`
pub record ApiResourceList : Type 0 where
  pub group_version : String
  pub api_resources : List ApiResource

pub record LabelSelectorRequirement : Type 0 where
  pub key : String
  pub operator : String
  pub values : List String

pub record LabelSelector : Type 0 where
  pub match_labels : Labels
  pub match_expressions : List LabelSelectorRequirement

pub record GroupVersionKind : Type 0 where
  pub group : String
  pub version : String
  pub kind : String

-- `LogCollector`, without the clients. `clean_output` is the flag that keeps the source folder.
pub record LogCollector : Type 0 where
  pub output_dir : String
  pub clean_output : Bool
  pub clustered : Bool
  pub namespaces : List String
  pub loglevel : String
  pub kube_config : String
  pub label_selectors : List LabelSelector
  pub group_version_kinds : List GroupVersionKind

-- `corev1.ContainerState`: which of its pointers are set.
pub record ContainerState : Type 0 where
  pub waiting : Bool
  pub running : Bool
  pub terminated : Bool

pub record ContainerStatus : Type 0 where
  pub name : String
  pub state : ContainerState
  pub last_termination_state : ContainerState

-- The statuses of `corev1.Pod`.
pub record PodStatus : Type 0 where
  pub container_statuses : List ContainerStatus
  pub init_container_statuses : List ContainerStatus

-- `types.NamespacedName`
pub record NamespacedName : Type 0 where
  pub namespace : String
  pub name : String
