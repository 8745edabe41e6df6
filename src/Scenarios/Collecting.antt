-- ===== src/Scenarios/Collecting.antt =====
-- A collection on a concrete cluster with a pod of the product, a licence, and an event of the pod.
use Prim.Native.String
use tvk_plugins.Prelude.{String, true, false, none, some, List, [], ◌∷◌, ◌==◌, ◌≡◌, refl, ◌↔◌}
use tvk_plugins.Prelude.Tests.{if◌then◌else◌}
use tvk_plugins.Prelude.Lists.{All, Filtered}
use tvk_plugins.Kube.Objects.{Labels, found}
use tvk_plugins.Kube.Calls.{not_found, Result, ok, err}
use tvk_plugins.Collector.Objects.{
  KubeObject, Metadata, ApiResource, ApiResourceList, LogCollector, PodStatus, ContainerState,
  no_metadata,
}
use tvk_plugins.Collector.Cluster.{Cluster, streamed}
use tvk_plugins.Collector.Exec.{State}
use tvk_plugins.Collector.Resources.{
  is_olm_webhook, ocp_related, get_resource_objects, filter_resource_objects,
}
use tvk_plugins.Collector.Resources.Reads.{reads, get_resource_objects-reads}
use tvk_plugins.Collector.Resources.Excluded.{secrets-left_out}
use tvk_plugins.Collector.Labels.{filter_tvk_resources_by_label}
use tvk_plugins.Collector.Labels.Selected.{SelectedObject, filter-Selected}
use tvk_plugins.Collector.Events.{ResourceMap, EventsData}
use tvk_plugins.Collector.Collect.{
  collect_logs_and_dump, check_if_namespaces_exist, get_trilio_group_resources, add_lists,
  resources_of,
}
use tvk_plugins.Collector.Collect.Redaction.{RedactedCall, trilio-RedactedCall}
use tvk_plugins.Collector.Collect.Namespaces.{Exists, check_if_namespaces_exist-Exists}
use tvk_plugins.Collector.Collect.Grown.{Extends, collect-Extends}
use tvk_plugins.Collector.Collect.Listed.{listed, add_lists-listed}

abbrev meta_of : String → String → Labels → Metadata
meta_of name ns labels = record no_metadata { name = name; namespace = ns; labels = labels }

abbrev object : String → String → Labels → KubeObject
object kind name labels = record {
  kind = kind;
  metadata = some (meta_of name "default" labels);
  involved_object = none;
  crd_group = found "";
  starting_csv = found "";
  subscription_name = found "";
  license_key = none;
  rest = record { text = "" };
}

abbrev product : Labels
product = ("app.kubernetes.io/part-of", "k8s-triliovault") ∷ []

abbrev pub our_pod : KubeObject
our_pod = object "Pod" "controller" product

abbrev other_pod : KubeObject
other_pod = object "Pod" "web" (("app", "web") ∷ [])

abbrev licence : KubeObject
licence = record (object "License" "trial" []) { license_key = some (record { text = "secret" }) }

abbrev event : KubeObject
event = record (object "Event" "controller.1" []) {
  involved_object = some (record {
    api_version = found "v1";
    namespace = found "default";
    kind = found "Pod";
    name = found "controller";
  });
}

abbrev resource : String → String → ApiResource
resource name kind = record {
  name = name;
  group = "";
  kind = kind;
  namespaced = true;
  verbs = "get" ∷ "list" ∷ [];
}

abbrev api_lists : List ApiResourceList
api_lists =
    record {
      group_version = "v1";
      api_resources = resource "pods" "Pod" ∷ resource "events" "Event" ∷ [];
    }
    ∷ record {
      group_version = "triliovault.trilio.io/v1";
      api_resources = resource "licenses" "License" ∷ [];
    }
    ∷ []

abbrev listed_at : String → Result (List KubeObject)
listed_at path =
    if path == "/api/v1/namespaces/default/pods"
    then ok (our_pod ∷ other_pod ∷ [])
    else (if path == "/apis/triliovault.trilio.io/v1/namespaces/default/licenses"
        then ok (licence ∷ [])
        else (if path == "/api/v1/namespaces/default/events"
            then ok (event ∷ [])
            else err (not_found path)))

abbrev running : ContainerState
running = record { waiting = false; running = true; terminated = false }

abbrev started : ContainerState
started = record { waiting = false; running = false; terminated = false }

abbrev pod_status : PodStatus
pod_status = record {
  container_statuses =
      record { name = "main"; state = running; last_termination_state = started } ∷ [];
  init_container_statuses = [];
}

abbrev pub cluster : Cluster
cluster = record {
  list_namespaces = λ h. ok ("default" ∷ "kube-system" ∷ []);
  server_preferred_resources = λ h. (api_lists, none);
  server_resources = λ h group_version. err (not_found group_version);
  get_list = λ h path. listed_at path;
  get_pod = λ h ns name. ok pod_status;
  stream_logs = λ h ns name container previous. streamed (ok "ready");
  stat = λ h path. err (not_found path);
  mkdir_all = λ h path. ok "";
  create = λ h path. ok "";
  write = λ h path text. ok "";
  walk = λ h path.
      record { path = path; is_dir = true; error = none }
      ∷ record {
        path = String.◌++◌ path "/Pod/default/controller.yaml";
        is_dir = false;
        error = none;
      }
      ∷ [];
  open_file = λ h path. ok "";
  zip_create = λ h path. ok "";
  zip_copy = λ h path. ok "";
  remove_all = λ h path. ok "";
  marshal = λ o. ok (String.◌++◌ "kind: " o.kind);
  new_requirement = λ key operator values. ok (λ labels. true);
  order_resources = λ h m. m;
  order_events = λ h events. events;
  order_containers = λ h containers. containers;
}

abbrev pub collector : LogCollector
collector = record {
  output_dir = "triliovault-2024-01-02T03-04-05";
  clean_output = false;
  clustered = false;
  namespaces = "default" ∷ [];
  loglevel = "INFO";
  kube_config = "";
  label_selectors = [];
  group_version_kinds = [];
}

abbrev fresh : State
fresh = record { namespaces = "default" ∷ []; calls = [] }

trilio-RedactedCall_example :
    All
      (RedactedCall cluster)
      (get_trilio_group_resources cluster collector
        (resource "licenses" "License" ∷ [])
        "triliovault.trilio.io/v1"
        fresh).1.calls
trilio-RedactedCall_example =
    trilio-RedactedCall cluster collector (resource "licenses" "License" ∷ [])
      "triliovault.trilio.io/v1" fresh refl

check_if_namespaces_exist-Exists_example : ((check_if_namespaces_exist cluster fresh).0 ≡ ok tt) ↔ (
    (existing : List String) × (cluster.list_namespaces [] ≡ ok existing)
    × All (Exists existing) ("default" ∷ []))
check_if_namespaces_exist-Exists_example = check_if_namespaces_exist-Exists cluster fresh

add_lists-listed_example : resources_of "v1" (add_lists api_lists []) ≡ listed "v1" api_lists
add_lists-listed_example = add_lists-listed "v1" api_lists

kept_pods :
    filter_tvk_resources_by_label cluster collector (our_pod ∷ other_pod ∷ []) ≡ ok (our_pod ∷ [])
unfolding filter_tvk_resources_by_label
kept_pods = refl

filter-Selected_example :
    Filtered (SelectedObject cluster collector) (our_pod ∷ other_pod ∷ []) (our_pod ∷ [])
filter-Selected_example =
    filter-Selected cluster collector (our_pod ∷ other_pod ∷ []) (our_pod ∷ []) kept_pods

abbrev resource_map : ResourceMap
resource_map = ("Pod", record { namespace = "default"; name = "controller" } ∷ []) ∷ []

abbrev data_of : Result EventsData → EventsData
data_of (ok events) = events
data_of (err e) = []

get_resource_objects-reads_example :
    get_resource_objects cluster collector "/api/v1" (resource "pods" "Pod") fresh
    ≡ reads cluster ("/api/v1/namespaces/default/pods" ∷ []) fresh
get_resource_objects-reads_example =
    get_resource_objects-reads cluster collector "/api/v1" (resource "pods" "Pod") fresh

no_webhook : is_olm_webhook product ≡ false
unfolding is_olm_webhook
no_webhook = refl

secrets-left_out_example :
    (filter_resource_objects cluster collector "/api/v1" (resource "secrets" "Secret") fresh
      ≡ (ok [], fresh))
    × (ocp_related "v1" (object "Secret" "token" product) ≡ [])
secrets-left_out_example =
    secrets-left_out cluster collector "/api/v1" (resource "secrets" "Secret") "v1"
      (object "Secret" "token" product) fresh refl refl refl no_webhook

collect-Extends_example : Extends ("default" ∷ []) (collect_logs_and_dump cluster collector fresh).1
collect-Extends_example = collect-Extends cluster collector fresh
