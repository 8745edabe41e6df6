-- ===== src/Collector/Events.antt =====
-- `aggregateEvents` of tools/log-collector/helper.go.
pub mod Reported
use Prim.Native.String.{◌++◌}
use text.Mathlib.Text.{starts_with}
use tvk_plugins.Prelude.{
  String, Bool, true, false, ◌&&◌, ◌||◌, Option, none, some, List, [], ◌∷◌, ◌==◌,
}
use tvk_plugins.Prelude.Tests.{if◌then◌else◌}
use tvk_plugins.Prelude.Lists.{or_nil, lookup, insert}
use tvk_plugins.Prelude.Text.{to_lower}
use tvk_plugins.Kube.Calls.{Result, ok, err, and_then}
use tvk_plugins.Collector.Objects.{KubeObject, involved_of, nested_string, NamespacedName}
use mathlib.Core.List

abbrev pub trilio_group : String
trilio_group = "triliovault.trilio.io"

abbrev pub ResourceMap : Type 0
ResourceMap = List (String × List NamespacedName)

abbrev pub EventsData : Type 0
EventsData = List (String × List (String × KubeObject))

-- What is read of an event, with the namespace `default` in place of "".
pub record Involved : Type 0 where
  pub api_version : String
  pub namespace : String
  pub kind : String
  pub name : String

unfoldable pub read_involved : KubeObject → Result Involved
read_involved eve =
    let i = involved_of eve in
    and_then (nested_string i.api_version) (λ api_version.
      and_then (nested_string i.namespace) (λ namespace. and_then (nested_string i.kind) (λ kind.
        and_then (nested_string i.name) (λ name. ok (record {
          api_version = api_version;
          namespace = if namespace == "" then "default" else namespace;
          kind = kind;
          name = name;
        })))))

-- The loop over the names of one kind.
unfoldable pub has_name : String → String → List NamespacedName → Bool
has_name namespace name [] = false
has_name namespace name (n ∷ ns) =
    namespace == n.namespace && name == n.name || has_name namespace name ns

-- `kindExist && nameNsExist`
unfoldable pub is_collected : ResourceMap → Involved → Bool
unfolding lookup has_name
is_collected resource_map i = elim (lookup i.kind resource_map) [
  | some names ↦ has_name i.namespace i.name names
  | none ↦ false
]

unfoldable pub is_relevant : ResourceMap → Involved → Bool
unfolding is_collected
is_relevant resource_map i = starts_with i.api_version trilio_group || is_collected resource_map i

unfoldable pub kind_name_key : Involved → String
unfolding to_lower
kind_name_key i = to_lower i.kind ++ "/" ++ i.name

-- The event without `metadata` and `involvedObject`.
unfoldable pub event_data : KubeObject → KubeObject
event_data eve = record eve { metadata = none; involved_object = none }

-- `m[namespace]`, nil for a missing key
unfoldable pub events_of : String → EventsData → List (String × KubeObject)
unfolding lookup
events_of namespace events = or_nil (lookup namespace events)

unfoldable pub add_event : Involved → KubeObject → EventsData → EventsData
unfolding events_of insert kind_name_key event_data
add_event i eve events =
    insert i.namespace
      (List.◌++◌ (events_of i.namespace events) ((kind_name_key i, event_data eve) ∷ [])) events

-- The loop over the events, from the data so far.
unfoldable pub aggregate : ResourceMap → List KubeObject → EventsData → Result EventsData
unfolding read_involved is_relevant add_event
aggregate resource_map [] events = ok events
aggregate resource_map (eve ∷ eves) events = and_then (read_involved eve) (λ i.
    aggregate resource_map eves
      (if is_relevant resource_map i then add_event i eve events else events))

unfoldable pub aggregate_events : ResourceMap → List KubeObject → Result EventsData
unfolding aggregate
aggregate_events resource_map eves = aggregate resource_map eves []
