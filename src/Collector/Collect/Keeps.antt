-- ===== src/Collector/Collect/Keeps.antt =====
-- What gathering objects, logs and events keeps: invariants that survive every read from the cluster and
-- every write below the output directory.
use tvk_plugins.Prelude.{String, List, [], ◌∷◌}
use tvk_plugins.Collector.Objects.{KubeObject, ApiResource, LogCollector}
use tvk_plugins.Collector.Calls.{Call}
use tvk_plugins.Collector.Cluster.{Cluster}
use tvk_plugins.Collector.Exec.{State}
use tvk_plugins.Collector.Exec.Keeps.{
  Keeps, Stable, Keeps-bind, Keeps-pure, Keeps-ask, Keeps-read, keeps_rules,
}
use tvk_plugins.Collector.Files.Keeps.{
  WritesBelow, write_yaml-Keeps-Below, write_logs-Keeps, write_events_to_file-Keeps,
}
use tvk_plugins.Collector.Events.{ResourceMap}
use tvk_plugins.Collector.Resources.Keeps.{
  get_resource_objects-Keeps, filter_resource_objects-Keeps, get_ocp_related_resources-Keeps,
}
use tvk_plugins.Collector.Collect.{
  GroupMap, Progress, redact, report_missing, check_if_namespaces_exist, get_api_resource_list,
  write_objects_and_logs, write_redacted, get_trilio_group_resources, check_is_openshift,
  collect_resource, collect_resources, collect_groups, get_resource_events, in_resource_order,
  filtering_resources,
}

-- The calls of everything before the archive.
pub record Gathers (dir : String) (Q : Call → Type 0) : Type 0 where
  pub list_namespaces : Q Call.list_namespaces
  pub server_preferred_resources : Q Call.server_preferred_resources
  pub server_resources : (group_version : String) → Q (Call.server_resources group_version)
  pub get_list : (path : String) → Q (Call.get_list path)
  pub writes : WritesBelow dir Q

module _ {P : State → Type 0} {Q : Call → Type 0} (stable : Stable P Q) (p : Cluster)
    (l : LogCollector) (q : Gathers l.output_dir Q) where
  report_missing-Keeps : (missing : List String) → Keeps P (report_missing p missing)
  unfolding report_missing
  report_missing-Keeps [] = search keeps_rules
  report_missing-Keeps (ns ∷ missing) = search keeps_rules

  pub check_if_namespaces_exist-Keeps : Keeps P (check_if_namespaces_exist p)
  unfolding check_if_namespaces_exist
  check_if_namespaces_exist-Keeps =
      let listed = q.list_namespaces in search (keeps_rules, stable, report_missing-Keeps) depth 8

  pub get_api_resource_list-Keeps : Keeps P (get_api_resource_list p)
  unfolding get_api_resource_list
  get_api_resource_list-Keeps =
      Keeps-bind _ _ (Keeps-ask stable _ _ q.server_preferred_resources) (λ r. search keeps_rules)

  write_objects_and_logs-Keeps :
      (kind : String) (objects : List KubeObject)
      → Keeps P (write_objects_and_logs p l kind objects)
  unfolding write_objects_and_logs
  write_objects_and_logs-Keeps kind [] = Keeps-pure []
  write_objects_and_logs-Keeps kind (obj ∷ objects) =
      let logs = write_logs-Keeps stable p l q.writes kind obj in
      let yaml = write_yaml-Keeps-Below stable p l q.writes kind obj in
      let rest = write_objects_and_logs-Keeps kind objects in search keeps_rules depth 8

  write_redacted-Keeps :
      (dir : String) (objects : List KubeObject) → Keeps P (write_redacted p l dir objects)
  unfolding write_redacted
  write_redacted-Keeps dir [] = Keeps-pure tt
  write_redacted-Keeps dir (obj ∷ objects) =
      Keeps-bind _ _ (write_yaml-Keeps-Below stable p l q.writes dir (redact obj))
        (λ w. write_redacted-Keeps dir objects)

  get_trilio_group_resources-Keeps :
      (rs : List ApiResource) (group_version : String)
      → Keeps P (get_trilio_group_resources p l rs group_version)
  unfolding get_trilio_group_resources
  get_trilio_group_resources-Keeps [] group_version = Keeps-pure tt
  get_trilio_group_resources-Keeps (r ∷ rs) group_version =
      Keeps-bind _ _ (get_resource_objects-Keeps stable p q.get_list l _ r) (λ objects.
        Keeps-bind _ _ (write_redacted-Keeps r.kind objects)
          (λ w. get_trilio_group_resources-Keeps rs group_version))

  check_is_openshift-Keeps : (group_version : String) → Keeps P (check_is_openshift p group_version)
  unfolding check_is_openshift
  check_is_openshift-Keeps group_version =
      let asked = q.server_resources group_version in search (keeps_rules, stable) depth 8

  collect_resource-Keeps :
      (group_version : String) (r : ApiResource) → Keeps P (collect_resource p l group_version r)
  unfolding collect_resource
  collect_resource-Keeps group_version r =
      let filtered = filter_resource_objects-Keeps stable p q.get_list l in
      let read = get_resource_objects-Keeps stable p q.get_list l in
      let openshift = check_is_openshift-Keeps "security.openshift.io/v1" in
      let ocp = get_ocp_related_resources-Keeps stable p q.get_list l in
      let written = write_objects_and_logs-Keeps r.kind in search keeps_rules depth 12

  collect_resources-Keeps :
      (group_version : String) (rs : List ApiResource) (progress : Progress)
      → Keeps P (collect_resources p l group_version rs progress)
  unfolding collect_resources
  collect_resources-Keeps group_version [] progress = Keeps-pure progress
  collect_resources-Keeps group_version (r ∷ rs) progress =
      let later = collect_resources-Keeps group_version rs in
      let collected = collect_resource-Keeps group_version r in search keeps_rules depth 6

  collect_groups-Keeps :
      (groups : GroupMap) (progress : Progress) → Keeps P (collect_groups p l groups progress)
  unfolding collect_groups
  collect_groups-Keeps [] progress = Keeps-pure progress
  collect_groups-Keeps (g ∷ groups) progress =
      let later = collect_groups-Keeps groups in
      let trilio = get_trilio_group_resources-Keeps g.1 g.0 in
      let collected = collect_resources-Keeps g.0 g.1 progress in search keeps_rules depth 6

  get_resource_events-Keeps :
      (r : ApiResource) (resource_map : ResourceMap)
      → Keeps P (get_resource_events p l r resource_map)
  unfolding get_resource_events
  get_resource_events-Keeps r resource_map =
      let read = get_resource_objects-Keeps stable p q.get_list l in
      let written = write_events_to_file-Keeps stable p l q.writes in search keeps_rules depth 8

  pub filtering_resources-Keeps : (m : GroupMap) → Keeps P (filtering_resources p l m)
  unfolding filtering_resources in_resource_order
  filtering_resources-Keeps m = Keeps-bind _ _ (Keeps-read _) (λ groups.
      Keeps-bind _ _ (collect_groups-Keeps groups _)
        (λ progress. get_resource_events-Keeps progress.event_resource progress.resource_map_list))
