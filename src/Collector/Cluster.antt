-- ===== src/Collector/Cluster.antt =====
-- The other side of each call, as a parameter: a reply may depend on all calls before, newest first.
use tvk_plugins.Prelude.{String, Bool, Option, List}
use tvk_plugins.Kube.Objects.{Labels}
use tvk_plugins.Kube.Calls.{Error, Result}
use tvk_plugins.Collector.Objects.{KubeObject, ApiResource, ApiResourceList, PodStatus}
use tvk_plugins.Collector.Calls.{Call}

-- What `filepath.Walk` hands to its function: a path, whether it is a directory, and an error.
pub record WalkEntry : Type 0 where
  pub path : String
  pub is_dir : Bool
  pub error : Option Error

-- What `GetLogs` gives: an error of the request, or a stream and the outcome of reading it.
pub data LogReply : Type 0 where
  refused_stream : Error → LogReply
  streamed : Result String → LogReply

-- `containerStat`
pub record ContainerStat : Type 0 where
  pub prev : Bool
  pub curr : Bool

pub record Cluster : Type 0 where
  pub list_namespaces : List Call → Result (List String)
  -- a list may come with an error
  pub server_preferred_resources : List Call → List ApiResourceList × Option Error
  pub server_resources : List Call → String → Result String
  pub get_list : List Call → String → Result (List KubeObject)
  pub get_pod : List Call → String → String → Result PodStatus
  pub stream_logs : List Call → String → String → String → Bool → LogReply
  pub stat : List Call → String → Result String
  pub mkdir_all : List Call → String → Result String
  pub create : List Call → String → Result String
  pub write : List Call → String → String → Result String
  pub walk : List Call → String → List WalkEntry
  pub open_file : List Call → String → Result String
  pub zip_create : List Call → String → Result String
  pub zip_copy : List Call → String → Result String
  pub remove_all : List Call → String → Result String
  -- `yaml.Marshal`, and `labels.NewRequirement` with its `Matches`
  pub marshal : KubeObject → Result String
  pub new_requirement : String → String → List String → Result (Labels → Bool)
  -- the order in which the runtime goes through a map
  pub order_resources :
      List Call → List (String × List ApiResource) → List (String × List ApiResource)
  pub order_events :
      List Call
      → List (String × List (String × KubeObject))
      → List (String × List (String × KubeObject))
  pub order_containers : List Call → List (String × ContainerStat) → List (String × ContainerStat)
