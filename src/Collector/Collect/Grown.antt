-- ===== src/Collector/Collect/Grown.antt =====
-- Which namespaces a collection reads (tools/log-collector/log_collector.go): those of its options, and
-- the one that `getOcpRelatedResources` adds.
use tvk_plugins.Prelude.{String, List, [], ◌∷◌, ◌++◌, ◌≡◌, refl, sym, ◌∙◌, ap}
use tvk_plugins.Prelude.Lists.{All, All-append}
use tvk_plugins.Collector.Objects.{LogCollector}
use tvk_plugins.Collector.Calls.{Call}
use tvk_plugins.Collector.Cluster.{Cluster}
use tvk_plugins.Collector.Exec.{State}
use tvk_plugins.Collector.Exec.Keeps.{
  Keeps, Stable, Keeps-bind, Keeps-if, Keeps-pure, Keeps-ask, ocp_config_ns,
}
use tvk_plugins.Collector.Files.{remove_all, zip_dir}
use tvk_plugins.Collector.Collect.{collect_logs_and_dump}
use tvk_plugins.Collector.Collect.Archive.{walk_entries-Keeps}
use tvk_plugins.Collector.Collect.Keeps.{
  Gathers, check_if_namespaces_exist-Keeps, get_api_resource_list-Keeps, filtering_resources-Keeps,
}
use mathlib.Core.List.{append-nil, append_assoc}

abbrev IsOcp : String → Type 0
IsOcp ns = ns ≡ ocp_config_ns

-- The namespaces at the start, and then only that of OpenShift's configuration.
abbrev pub Extends : List String → State → Type 0
Extends start s = (added : List String) × (s.namespaces ≡ start ++ added) × All IsOcp added

abbrev AnyCall : Call → Type 0
AnyCall c = Unit

Extends-Stable : (start : List String) → Stable (Extends start) AnyCall
Extends-Stable start = record {
  call = λ s c q h. h;
  ocp = λ s h. (
    h.0 ++ (ocp_config_ns ∷ []),
    ap (λ x. x ++ (ocp_config_ns ∷ [])) h.1 ∙ append_assoc start h.0 (ocp_config_ns ∷ []),
    All-append IsOcp h.0 (ocp_config_ns ∷ []) h.2 (refl, tt),
  );
}

module _ (p : Cluster) (l : LogCollector) (start : List String) where
  AnyCall-Gathers : Gathers l.output_dir AnyCall
  AnyCall-Gathers = record {
    list_namespaces = tt;
    server_preferred_resources = tt;
    server_resources = λ group_version. tt;
    get_list = λ path. tt;
    writes = record {
      stat = λ path below. tt;
      mkdir_all = λ path below. tt;
      create = λ path below. tt;
      write = λ path text below. tt;
      get_pod = λ ns name. tt;
      stream_logs = λ ns name container previous. tt;
    };
  }

  remove_all-Extends : (path : String) → Keeps (Extends start) (remove_all p path)
  unfolding remove_all
  remove_all-Extends path = Keeps-ask (Extends-Stable start) _ _ tt

  zip_dir-Extends : Keeps (Extends start) (zip_dir p l)
  unfolding zip_dir
  zip_dir-Extends =
      let stable = Extends-Stable start in
      Keeps-bind _ _ (Keeps-ask stable _ _ tt) (λ created.
        Keeps-bind _ _ (Keeps-ask stable _ _ tt) (λ entries.
          Keeps-bind _ _ (walk_entries-Keeps p stable (λ x. tt) (λ x. tt) (λ x. tt) entries) (λ w.
            Keeps-if l.clean_output _ _ (λ e. Keeps-pure tt)
              (λ e. Keeps-bind _ _ (remove_all-Extends l.output_dir) (λ r. Keeps-pure tt)))))

  collect-Keeps : Keeps (Extends start) (collect_logs_and_dump p l)
  unfolding collect_logs_and_dump
  collect-Keeps =
      let stable = Extends-Stable start in
      Keeps-bind _ _ (check_if_namespaces_exist-Keeps stable p l AnyCall-Gathers) (λ c.
        Keeps-bind _ _ (get_api_resource_list-Keeps stable p l AnyCall-Gathers) (λ m.
          Keeps-bind _ _ (filtering_resources-Keeps stable p l AnyCall-Gathers m) (λ f.
            Keeps-bind _ _ zip_dir-Extends (λ z.
              Keeps-if l.clean_output _ _ (λ e. Keeps-pure tt)
                (λ e. Keeps-bind _ _ (remove_all-Extends l.output_dir) (λ r. Keeps-pure tt))))))

-- Whatever the cluster and the file system answer: the namespaces of a collection stay as they are, in
-- their order, and the only one that is ever added behind them is that of OpenShift's ingress
-- configuration.
pub collect-Extends :
    (p : Cluster) (l : LogCollector) (s : State)
    → Extends s.namespaces (collect_logs_and_dump p l s).1
collect-Extends p l s =
    (collect-Keeps p l s.namespaces).at s ([], sym (append-nil s.namespaces), tt)
