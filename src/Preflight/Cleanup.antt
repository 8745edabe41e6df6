-- ===== src/Preflight/Cleanup.antt =====
-- tools/preflight/cleanup.go: deletion of the resources of one run, or of all runs.

pub mod Keeps
pub mod Scope
pub mod Kinds
pub mod Server
pub mod Emptied
pub mod Granted
use tvk_plugins.Prelude.{String, Bool, true, false, ◌&&◌, List, [], ◌∷◌, ◌++◌, ◌==◌, map}
use tvk_plugins.Prelude.Tests.{if◌then◌else◌}
use tvk_plugins.Prelude.Lists.{insert}
use tvk_plugins.Kube.Objects.{Labels, GroupVersionKind, Unstructured, Object}
use tvk_plugins.Kube.Calls.{deletion_failed, is_not_found, Call}
use tvk_plugins.Preflight.Exec.{Exec, pure, raise, ask, try, ◌>>=◌, on_result}
use tvk_plugins.Preflight.Options.{
  CommonOptions, label_trilio_key, label_tvk_preflight_value, label_preflight_run_key,
  storage_snapshot_group,
}
use tvk_plugins.Preflight.Platform.{Platform}
use tvk_plugins.Preflight.Resources.{delete_k8s_resource, get_versions_of_group}

pub record Cleanup : Type 0 where
  pub uid : String
  pub common_options : CommonOptions
  pub open common_options use *

-- `resLabels`, the labels that `List` must match, from the uid
unfoldable pub res_labels_of : String → Labels
unfolding insert
res_labels_of uid =
    let all_runs = (label_trilio_key, label_tvk_preflight_value) ∷ [] in
    if uid == "" then all_runs else insert label_preflight_run_key uid all_runs

abbrev pub res_labels : Cleanup → Labels
res_labels co = res_labels_of co.uid

unfoldable pub delete_ns : Cleanup → String
delete_ns co = if co.namespace == "" then "default" else co.namespace

-- The kinds to clean, for the served versions of volume snapshots.
unfoldable pub cleanup_kinds : List String → List GroupVersionKind
cleanup_kinds versions =
    map (λ ver. record { group = storage_snapshot_group; version = ver; kind = "VolumeSnapshot" })
      versions
    ++ record { group = ""; version = "v1"; kind = "PersistentVolumeClaim" }
      ∷ record { group = ""; version = "v1"; kind = "Pod" }
      ∷ []

module _ (p : Platform) where
  unfoldable pub get_cleanup_resource_gvk_list : Exec (List GroupVersionKind)
  unfolding cleanup_kinds
  get_cleanup_resource_gvk_list = do
    versions ← get_versions_of_group p storage_snapshot_group
    pure (cleanup_kinds versions)

  -- The inner loop: whether every deletion succeeded or found nothing to delete.
  unfoldable pub clean_objects : List Unstructured → Exec Bool
  clean_objects [] = pure true
  clean_objects (res ∷ rest) = do
    r ← try (delete_k8s_resource p (Object.unstructured res))
    others ← clean_objects rest
    on_result r (λ e. pure (is_not_found e && others)) (λ _. pure others)

  -- The outer loop.
  unfoldable pub clean_kinds : Labels → String → List GroupVersionKind → Exec Bool
  unfolding clean_objects
  clean_kinds labels ns [] = pure true
  clean_kinds labels ns (gvk ∷ gvks) = do
    listed ← try (ask (Call.list_objects gvk labels ns) (λ h. p.list_objects h gvk labels ns))
    cleaned ← on_result listed (λ e. pure false) clean_objects
    others ← clean_kinds labels ns gvks
    pure (cleaned && others)

  unfoldable pub cleanup_preflight_resources : Cleanup → Exec (Unit {0})
  unfolding get_cleanup_resource_gvk_list clean_kinds
  cleanup_preflight_resources co = do
    gvk_list ← get_cleanup_resource_gvk_list
    all_success ← clean_kinds (res_labels co) (delete_ns co) gvk_list
    if all_success then pure tt else raise deletion_failed
