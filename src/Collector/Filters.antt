-- ===== src/Collector/Filters.antt =====
-- Filters that look at no label, container states and paths: tools/log-collector/helper.go, and
-- `filterInputNS` and `checkIfMatchesInputGVKs` of tools/log-collector/log_collector.go.
pub mod Containers
use Prim.Native.String.{◌++◌}
use text.Mathlib.Text.{starts_with}
use tvk_plugins.Prelude.{String, Bool, false, not, ◌&&◌, ◌||◌, List, [], ◌∷◌, ◌==◌}
use tvk_plugins.Prelude.Tests.{if◌then◌else◌}
use tvk_plugins.Prelude.Lists.{filter, insert}
use tvk_plugins.Prelude.Text.{split, equal_fold}
use tvk_plugins.Kube.Calls.{Result, ok, err}
use tvk_plugins.Collector.Objects.{
  KubeObject, get_name, nested_string, ApiResource, GroupVersionKind, LogCollector, ContainerState,
  ContainerStatus, PodStatus,
}
use tvk_plugins.Collector.Cluster.{ContainerStat}

-- `sets.String.Has`
abbrev pub has : String → List String → Bool
has x [] = false
has x (y ∷ ys) = x == y || has x ys

abbrev pub trilio_prefix : String
trilio_prefix = "k8s-triliovault"

abbrev pub non_labeled_resources : List String
non_labeled_resources =
    "ResourceQuota" ∷ "LimitRange" ∷ "VolumeSnapshot" ∷ "Node" ∷ "StorageClass"
    ∷ "VolumeSnapshotClass" ∷ []

abbrev pub exclude_resources : List String
exclude_resources = "Secret" ∷ "PackageManifest" ∷ []

abbrev pub crd_filter_group : List String
crd_filter_group = "triliovault.trilio.io" ∷ "snapshot.storage.k8s.io" ∷ "csi.storage.k8s.io" ∷ []

unfoldable pub filter_tvk_csv : List KubeObject → List KubeObject
filter_tvk_csv = filter (λ o. starts_with (get_name o) trilio_prefix)

-- An object whose group is no text ends the loop with an error.
unfoldable pub filter_tvk_snapshot_and_csi_crd : List KubeObject → Result (List KubeObject)
filter_tvk_snapshot_and_csi_crd [] = ok []
filter_tvk_snapshot_and_csi_crd (o ∷ objects) =
    let rest = filter_tvk_snapshot_and_csi_crd objects in
    elim (nested_string o.crd_group) [
      | err e ↦ err e
      | ok group ↦ elim rest [
        | err e ↦ err e
        | ok kept ↦ ok (if has group crd_filter_group then o ∷ kept else kept)
      ]
    ]

unfoldable pub filter_input_ns : Bool → List String → List KubeObject → List KubeObject
filter_input_ns clustered namespaces objects =
    if clustered then objects else filter (λ o. has (get_name o) namespaces) objects

-- One of the two states: not waiting, and terminated or running.
abbrev pub is_present : ContainerState → Bool
is_present s = not s.waiting && (s.terminated || s.running)

unfoldable pub get_container_status_value : ContainerStatus → ContainerStat
get_container_status_value c = record {
  prev = is_present c.last_termination_state;
  curr = is_present c.state;
}

-- One of the two loops of `getContainers`.
unfoldable pub add_containers :
    List ContainerStatus → List (String × ContainerStat) → List (String × ContainerStat)
unfolding get_container_status_value insert
add_containers [] containers = containers
add_containers (c ∷ cs) containers =
    let status = get_container_status_value c in
    add_containers cs
      (if status.curr || status.prev then insert c.name status containers else containers)

unfoldable pub get_containers : PodStatus → List (String × ContainerStat)
unfolding add_containers
get_containers pod =
    add_containers pod.init_container_statuses (add_containers pod.container_statuses [])

unfoldable pub get_api_group_version_resource_path : String → String
get_api_group_version_resource_path gv = if gv == "v1" then "/api/v1" else "/apis/" ++ gv

-- `resource.Group` and `resource.Version`, as `checkIfMatchesInputGVKs` sets them.
unfoldable pub group_and_version : ApiResource → String → List String → String × String
group_and_version resource group_version (group ∷ version ∷ []) = (group, version)
group_and_version resource group_version _ = (resource.group, group_version)

unfoldable pub matches_any_gvk : String → String → String → List GroupVersionKind → Bool
unfolding equal_fold
matches_any_gvk group version kind [] = false
matches_any_gvk group version kind (g ∷ gs) =
    equal_fold g.group group && equal_fold g.version version && equal_fold g.kind kind
    || matches_any_gvk group version kind gs

unfoldable pub check_if_matches_input_gvks : LogCollector → ApiResource → String → Bool
unfolding group_and_version matches_any_gvk split
check_if_matches_input_gvks l resource group_version =
    let (group, version) = group_and_version resource group_version (split group_version b'/') in
    matches_any_gvk group version resource.kind l.group_version_kinds
