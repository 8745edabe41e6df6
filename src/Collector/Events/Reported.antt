-- ===== src/Collector/Events/Reported.antt =====
-- Which events `aggregateEvents` of tools/log-collector/helper.go keeps of a namespace.
use tvk_plugins.Prelude.{String, List, [], ◌∷◌, ◌&&◌, ◌==◌}
use tvk_plugins.Prelude.Tests.{if◌then◌else◌}
use tvk_plugins.Kube.Calls.{Result, ok, err}
use tvk_plugins.Collector.Objects.{KubeObject}
use tvk_plugins.Collector.Events.{
  ResourceMap, Involved, read_involved, is_relevant, kind_name_key, event_data,
}

-- The event of an object that is named by the key.
abbrev pub entry_of : Involved → KubeObject → String × KubeObject
entry_of i eve = (kind_name_key i, event_data eve)

-- One event in front of the later ones, if it is relevant and of that namespace.
abbrev pub report :
    ResourceMap
    → String
    → KubeObject
    → Result Involved
    → List (String × KubeObject)
    → List (String × KubeObject)
report resource_map ns eve (err e) later = later
report resource_map ns eve (ok i) later =
    if is_relevant resource_map i && i.namespace == ns then entry_of i eve ∷ later else later

-- The relevant events of a namespace, in their order.
abbrev pub reported : ResourceMap → String → List KubeObject → List (String × KubeObject)
reported resource_map ns [] = []
reported resource_map ns (eve ∷ eves) =
    report resource_map ns eve (read_involved eve) (reported resource_map ns eves)
