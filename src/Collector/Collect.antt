-- ===== src/Collector/Collect.antt =====
-- A collection: `CollectLogsAndDump` of tools/log-collector/log_collector.go and the functions that it
-- calls.
pub mod Keeps
pub mod Archive
pub mod Calls
pub mod Redaction
pub mod Namespaces
pub mod Listed
pub mod Grown
use Prim.Native.String.{◌++◌}
use tvk_plugins.Prelude.{String, Bool, true, false, ◌&&◌, Option, none, some, List, [], ◌∷◌, ◌==◌}
use tvk_plugins.Prelude.Tests.{if◌then◌else◌}
use tvk_plugins.Prelude.Lists.{or_nil, lookup, insert}
use tvk_plugins.Prelude.Text.{trim}
use tvk_plugins.Kube.Calls.{failed, is_not_found, is_group_discovery_failed, Result, ok, err}
use tvk_plugins.Collector.Objects.{
  Metadata, KubeObject, get_name, get_namespace, ApiResource, ApiResourceList, LogCollector,
  NamespacedName,
}
use tvk_plugins.Collector.Calls.{Call}
use tvk_plugins.Collector.Cluster.{Cluster}
use tvk_plugins.Collector.Exec.{
  State, Exec, pure, raise, lift, gets, ask, try, ◌>>=◌, ◌>>◌, on_option, on_result,
}
use tvk_plugins.Collector.Filters.{
  has, get_api_group_version_resource_path, check_if_matches_input_gvks,
}
use tvk_plugins.Collector.Files.{write_yaml, write_logs, write_events_to_file, remove_all, zip_dir}
use tvk_plugins.Collector.Events.{ResourceMap, aggregate_events}
use tvk_plugins.Collector.Resources.{
  get_resource_objects, filter_resource_objects, get_ocp_related_resources,
}
use mathlib.Core.List

-- `nonExistNs`, trimmed
unfoldable pub missing_namespaces : List String → List String → List String
unfolding trim
missing_namespaces existing [] = []
missing_namespaces existing (ns ∷ namespaces) =
    let rest = missing_namespaces existing namespaces in
    if has (trim ns) existing then rest else trim ns ∷ rest

abbrev join : List String → String
join [] = ""
join (ns ∷ namespaces) = ns ++ " " ++ join namespaces

abbrev pub GroupMap : Type 0
GroupMap = List (String × List ApiResource)

-- `m[groupVersion]`, nil for a missing key
unfoldable pub resources_of : String → GroupMap → List ApiResource
unfolding lookup
resources_of group_version m = or_nil (lookup group_version m)

abbrev pub append_resource : String → ApiResource → GroupMap → GroupMap
append_resource group_version resource m =
    insert group_version (List.◌++◌ (resources_of group_version m) (resource ∷ [])) m

-- One append for each verb that is `list`.
unfoldable pub add_verbs : String → ApiResource → List String → GroupMap → GroupMap
unfolding resources_of insert
add_verbs group_version resource [] m = m
add_verbs group_version resource (verb ∷ verbs) m =
    add_verbs group_version resource verbs
      (if verb == "list" then append_resource group_version resource m else m)

unfoldable pub add_resources : String → List ApiResource → GroupMap → GroupMap
unfolding add_verbs
add_resources group_version [] m = m
add_resources group_version (resource ∷ resources) m =
    add_resources group_version resources (add_verbs group_version resource resource.verbs m)

unfoldable pub add_lists : List ApiResourceList → GroupMap → GroupMap
unfolding add_resources
add_lists [] m = m
add_lists (r ∷ rs) m = add_lists rs (add_resources r.group_version r.api_resources m)

-- `unstructured.RemoveNestedField` of `spec.key` and of `metadata.annotations`.
abbrev pub without_annotations : Option Metadata → Option Metadata
without_annotations none = none
without_annotations (some m) = some (record m { annotations = none })

unfoldable pub redact : KubeObject → KubeObject
redact obj =
    if obj.kind == "License"
    then record obj { license_key = none; metadata = without_annotations obj.metadata }
    else obj

abbrev pub no_resource : ApiResource
no_resource = record { name = ""; group = ""; kind = ""; namespaced = false; verbs = [] }

-- The locals of `filteringResources` that its loops change.
pub record Progress : Type 0 where
  pub resource_map_list : ResourceMap
  pub event_resource : ApiResource

-- What `writeObjectsAndLogs` returns, of the list `nsName`: no entry where it is empty.
abbrev pub add_kind : String → List NamespacedName → Progress → Progress
add_kind kind [] progress = progress
add_kind kind (n ∷ ns) progress = record progress {
  resource_map_list = insert kind (n ∷ ns) progress.resource_map_list;
}

module _ (p : Cluster) where
  -- An error that names the missing namespaces, if there are any.
  unfoldable pub report_missing : List String → Exec (Unit {0})
  report_missing [] = pure tt
  report_missing (ns ∷ missing) =
      raise
        (failed ("specified namespaces doesn't exists in the cluster : " ++ join (ns ∷ missing)))

  unfoldable pub check_if_namespaces_exist : Exec (Unit {0})
  unfolding missing_namespaces report_missing
  check_if_namespaces_exist = do
    existing ← ask Call.list_namespaces p.list_namespaces
    namespaces ← gets State.namespaces
    report_missing (missing_namespaces existing namespaces)

  unfoldable pub get_api_resource_list : Exec GroupMap
  unfolding add_lists
  get_api_resource_list = do
    (resource_list, e) ←
        ask Call.server_preferred_resources (λ h. ok (p.server_preferred_resources h))
    on_option e (pure (add_lists resource_list []))
        (λ e. if is_group_discovery_failed e then pure (add_lists resource_list []) else raise e)

  -- The loop of `writeObjectsAndLogs`, and the names of the objects.
  unfoldable pub write_objects_and_logs :
      LogCollector → String → List KubeObject → Exec (List NamespacedName)
  unfolding write_logs write_yaml
  write_objects_and_logs l kind [] = pure []
  write_objects_and_logs l kind (obj ∷ objects) = do
    (if kind == "Pod" then write_logs p l kind obj else pure tt)
    write_yaml p l kind obj
    names ← write_objects_and_logs l kind objects
    pure (record { namespace = get_namespace obj; name = get_name obj } ∷ names)

  -- The loop over the objects of one resource.
  unfoldable pub write_redacted : LogCollector → String → List KubeObject → Exec (Unit {0})
  unfolding redact write_yaml
  write_redacted l resource_dir [] = pure tt
  write_redacted l resource_dir (obj ∷ objects) = do
    write_yaml p l resource_dir (redact obj)
    write_redacted l resource_dir objects

  unfoldable pub get_trilio_group_resources :
      LogCollector → List ApiResource → String → Exec (Unit {0})
  unfolding get_api_group_version_resource_path get_resource_objects write_redacted
  get_trilio_group_resources l [] group_version = pure tt
  get_trilio_group_resources l (resource ∷ resources) group_version = do
    objects ← get_resource_objects p l (get_api_group_version_resource_path group_version) resource
    write_redacted l resource.kind objects
    get_trilio_group_resources l resources group_version

  unfoldable pub check_is_openshift : String → Exec Bool
  check_is_openshift group_version = do
    r ← try (ask (Call.server_resources group_version) (λ h. p.server_resources h group_version))
    on_result r (λ e. if is_not_found e then pure false else pure true) (λ _. pure true)

  -- The body of the loop over the resources of a group version, after the test for events.
  unfoldable pub collect_resource : LogCollector → String → ApiResource → Exec (List NamespacedName)
  unfolding get_api_group_version_resource_path filter_resource_objects check_if_matches_input_gvks
      get_resource_objects check_is_openshift get_ocp_related_resources write_objects_and_logs
  collect_resource l group_version resource = do
    let path = get_api_group_version_resource_path group_version
    filtered ← filter_resource_objects p l path resource
    gvk_objects ←
        (if check_if_matches_input_gvks l resource group_version
          then get_resource_objects p l path resource
          else pure [])
    openshift ← check_is_openshift "security.openshift.io/v1"
    ocp_objects ←
        (if openshift then get_ocp_related_resources p l path resource group_version else pure [])
    write_objects_and_logs l resource.kind (List.◌++◌ filtered (List.◌++◌ gvk_objects ocp_objects))

  unfoldable pub collect_resources :
      LogCollector → String → List ApiResource → Progress → Exec Progress
  unfolding collect_resource
  collect_resources l group_version [] progress = pure progress
  collect_resources l group_version (resource ∷ resources) progress =
      if resource.name == "events"
      then collect_resources l group_version resources
          (record progress { event_resource = resource })
      else (do
        names ← collect_resource l group_version resource
        collect_resources l group_version resources (add_kind resource.kind names progress))

  unfoldable pub collect_groups : LogCollector → GroupMap → Progress → Exec Progress
  unfolding get_trilio_group_resources collect_resources
  collect_groups l [] progress = pure progress
  collect_groups l (g ∷ groups) progress =
      if g.0 == "triliovault.trilio.io/v1"
      then (do get_trilio_group_resources l g.1 g.0; collect_groups l groups progress)
      else (do later ← collect_resources l g.0 g.1 progress; collect_groups l groups later)

  unfoldable pub get_resource_events : LogCollector → ApiResource → ResourceMap → Exec (Unit {0})
  unfolding get_api_group_version_resource_path get_resource_objects aggregate_events
      write_events_to_file
  get_resource_events l event_resource resource_map = do
    objects ← get_resource_objects p l (get_api_group_version_resource_path "v1") event_resource
    events ← lift (aggregate_events resource_map objects)
    write_events_to_file p l events

  -- The range over the map of resources, in the runtime's order.
  unfoldable pub in_resource_order : GroupMap → Exec GroupMap
  in_resource_order m s = (ok (p.order_resources s.calls m), s)

  unfoldable pub filtering_resources : LogCollector → GroupMap → Exec (Unit {0})
  unfolding in_resource_order collect_groups get_resource_events
  filtering_resources l resource_group = do
    groups ← in_resource_order resource_group
    progress ←
        collect_groups l groups (record { resource_map_list = []; event_resource = no_resource })
    get_resource_events l progress.event_resource progress.resource_map_list

  unfoldable pub collect_logs_and_dump : LogCollector → Exec (Unit {0})
  unfolding check_if_namespaces_exist get_api_resource_list filtering_resources zip_dir remove_all
  collect_logs_and_dump l = do
    check_if_namespaces_exist
    resource_map_list ← get_api_resource_list
    filtering_resources l resource_map_list
    zip_dir p l
    if l.clean_output then pure tt else remove_all p l.output_dir >> pure tt
