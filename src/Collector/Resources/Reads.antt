-- ===== src/Collector/Resources/Reads.antt =====
-- What `getResourceObjects` of tools/log-collector/log_collector.go asks for and returns.
use Prim.Native.String
use tvk_plugins.Prelude.{String, not, ◌&&◌, List, [], ◌∷◌, ◌++◌, map, ◌≡◌, refl, sym, ap, inl, inr}
use tvk_plugins.Prelude.Tests.{if◌then◌else◌, Bool-cases}
use tvk_plugins.Kube.Calls.{Result, ok}
use tvk_plugins.Action.{gets, ◌>>=◌}
use tvk_plugins.Collector.Objects.{KubeObject, ApiResource, LogCollector}
use tvk_plugins.Collector.Calls.{Call}
use tvk_plugins.Collector.Cluster.{Cluster}
use tvk_plugins.Collector.Exec.{State, ask}
use tvk_plugins.Collector.Resources.{
  namespaced_path, items, get_list, get_in_namespaces, get_resource_objects,
}
use mathlib.Core.List.{append-nil}

-- The paths of a resource: one for each namespace where the resource has namespaces and the collection
-- is not of the whole cluster, and one otherwise.
abbrev pub requests : LogCollector → String → ApiResource → List String → List String
requests l path r namespaces =
    if r.namespaced && not l.clustered
    then map (λ ns. namespaced_path path ns r.name) namespaces
    else String.◌++◌ path (String.◌++◌ "/" r.name) ∷ []

-- The calls after one GET for each path.
abbrev pub asked : List String → List Call → List Call
asked [] h = h
asked (path ∷ paths) h = asked paths (Call.get_list path ∷ h)

module _ (p : Cluster) where
  -- What the server has for the paths; a request that fails gives nothing.
  abbrev pub read : List String → List Call → List KubeObject
  read [] h = []
  read (path ∷ paths) h = items (p.get_list h path) ++ read paths (Call.get_list path ∷ h)

  -- What reading the paths does, in one step.
  abbrev pub reads : List String → State → Result (List KubeObject) × State
  reads paths s = (ok (read paths s.calls), record s { calls = asked paths s.calls })

  get_in_namespaces-reads :
      (path name : String) (ns : List String) (s : State)
      → get_in_namespaces p path name ns s ≡ reads (map (λ n. namespaced_path path n name) ns) s
  unfolding get_in_namespaces ◌>>=◌ ask get_list
  get_in_namespaces-reads path name [] s = refl
  get_in_namespaces-reads path name (n ∷ ns) s =
      rw
        (get_in_namespaces-reads path name ns
          (record s { calls = Call.get_list (namespaced_path path n name) ∷ s.calls }))
        refl

  get_list-reads : (path : String) (s : State) → get_list p path s ≡ reads (path ∷ []) s
  unfolding get_list ◌>>=◌ ask
  get_list-reads path s =
      ap (λ objects. (ok objects, record s { calls = Call.get_list path ∷ s.calls }))
        (sym (append-nil (items (p.get_list s.calls path))))

  -- Reading the objects of a resource always returns objects and no error: after exactly one GET for
  -- each of its paths, in the order of the namespaces, those that the server has, in that order, where a
  -- request that fails counts as none. Nothing else changes.
  pub get_resource_objects-reads :
      (l : LogCollector) (path : String) (r : ApiResource) (s : State)
      → get_resource_objects p l path r s ≡ reads (requests l path r s.namespaces) s
  unfolding get_resource_objects ◌>>=◌ gets
  get_resource_objects-reads l path r s = elim (Bool-cases (r.namespaced && not l.clustered)) [
    | inl each ↦ rw each (get_in_namespaces-reads path r.name s.namespaces s)
    | inr once ↦ rw once (get_list-reads (String.◌++◌ path (String.◌++◌ "/" r.name)) s)
  ]
