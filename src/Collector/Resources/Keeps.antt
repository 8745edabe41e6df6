-- ===== src/Collector/Resources/Keeps.antt =====
-- What reading the objects of resources keeps: invariants that survive every GET.

use tvk_plugins.Prelude.{String, List, [], ◌∷◌}
use tvk_plugins.Collector.Objects.{ApiResource, LogCollector}
use tvk_plugins.Collector.Calls.{Call}
use tvk_plugins.Collector.Cluster.{Cluster}
use tvk_plugins.Collector.Exec.{State}
use tvk_plugins.Collector.Exec.Keeps.{
  Keeps, Stable, Keeps-modify, Keeps-if, Keeps-pure, keeps_rules,
}
use tvk_plugins.Collector.Resources.{
  get_list, get_in_namespaces, get_resource_objects, filter_resource_objects, add_ocp_config_ns,
  get_ocp_related_resources,
}

module _ {P : State → Type 0} {Q : Call → Type 0} (stable : Stable P Q) (p : Cluster)
    (ql : (path : String) → Q (Call.get_list path)) where
  get_list-Keeps : (path : String) → Keeps P (get_list p path)
  unfolding get_list
  get_list-Keeps path = let listed = ql path in search (keeps_rules, stable)

  get_in_namespaces-Keeps :
      (path name : String) (ns : List String) → Keeps P (get_in_namespaces p path name ns)
  unfolding get_in_namespaces
  get_in_namespaces-Keeps path name [] = Keeps-pure []
  get_in_namespaces-Keeps path name (n ∷ ns) =
      let rest = get_in_namespaces-Keeps path name ns in
      search (keeps_rules, get_list-Keeps) depth 6

  pub get_resource_objects-Keeps :
      (l : LogCollector) (path : String) (r : ApiResource)
      → Keeps P (get_resource_objects p l path r)
  unfolding get_resource_objects
  get_resource_objects-Keeps l path r =
      search (keeps_rules, get_in_namespaces-Keeps, get_list-Keeps)

  pub filter_resource_objects-Keeps :
      (l : LogCollector) (path : String) (r : ApiResource)
      → Keeps P (filter_resource_objects p l path r)
  unfolding filter_resource_objects
  filter_resource_objects-Keeps l path r =
      let read = get_resource_objects-Keeps l path r in search keeps_rules depth 12

  add_ocp_config_ns-Keeps :
      (r : ApiResource) (group_version : String) → Keeps P (add_ocp_config_ns p r group_version)
  unfolding add_ocp_config_ns
  add_ocp_config_ns-Keeps r group_version =
      Keeps-if _ _ _ (λ e. Keeps-modify _ stable.ocp) (λ e. Keeps-pure tt)

  pub get_ocp_related_resources-Keeps :
      (l : LogCollector) (path : String) (r : ApiResource) (group_version : String)
      → Keeps P (get_ocp_related_resources p l path r group_version)
  unfolding get_ocp_related_resources
  get_ocp_related_resources-Keeps l path r group_version =
      let read = get_resource_objects-Keeps l path r in
      let added = add_ocp_config_ns-Keeps r group_version in search keeps_rules depth 8
