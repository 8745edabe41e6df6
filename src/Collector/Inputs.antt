-- ===== src/Collector/Inputs.antt =====
-- The inputs of the log-collector: cmd/log-collector/cmd/helper.go, and `preRun` of root.go.
pub mod Scope
pub mod Unique
use Prim.Native.String.{◌++◌}
use tvk_plugins.Prelude.{
  String, Bool, true, false, not, ◌&&◌, ◌||◌, Option, none, some, List, [], ◌∷◌, ◌==◌,
}
use tvk_plugins.Prelude.Tests.{if◌then◌else◌}
use tvk_plugins.Prelude.Text.{to_lower, equal_fold}
use tvk_plugins.Kube.Calls.{
  Error, is_group_discovery_failed, empty_config_kind, namespaces_of_cluster, Result, ok, err,
  and_then,
}
use tvk_plugins.Internal.Host.{Accessor}
use tvk_plugins.Internal.Kubeconfig.{new_env}
use tvk_plugins.Collector.Objects.{GroupVersionKind, LabelSelector, LogCollector}
use tvk_plugins.Collector.Filters.{has}
use tvk_plugins.Collector.Flags.{
  Flags, ApiGroup, Libraries, clustered_flag, namespaces_flag, keep_source_flag, gvk_flag,
  labels_flag, kubeconfig_flag, log_level_flag, parse_gvk, parse_label_selector,
}
use mathlib.Core.List

-- `%s` of the struct, in lower case
unfoldable pub gvk_key : GroupVersionKind → String
unfolding to_lower
gvk_key g = to_lower ("{" ++ g.group ++ " " ++ g.version ++ " " ++ g.kind ++ "}")

-- Each group of that name sets the version, so the last one counts.
unfoldable pub preferred_version : String → String → List ApiGroup → String
unfolding equal_fold
preferred_version group version [] = version
preferred_version group version (g ∷ gs) =
    preferred_version group (if equal_fold g.name group then g.preferred_version else version) gs

unfoldable pub fix_version : List ApiGroup → GroupVersionKind → GroupVersionKind
unfolding preferred_version
fix_version groups g =
    if g.version == "" then record g { version = preferred_version g.group "" groups } else g

-- The loop of `deDuplicateAndFixGVKs`, from the keys so far.
unfoldable pub unique_gvks :
    List ApiGroup → List String → List GroupVersionKind → Result (List GroupVersionKind)
unfolding gvk_key fix_version
unique_gvks groups keys [] = ok []
unique_gvks groups keys (g ∷ gs) =
    let later = unique_gvks groups (gvk_key g ∷ keys) gs in
    if has (gvk_key g) keys
    then unique_gvks groups keys gs
    else (if g.kind == ""
        then err empty_config_kind
        else and_then later (λ gvks. ok (fix_version groups g ∷ gvks)))

abbrev pub fatal_discovery : Option Error → Result (Unit {0})
fatal_discovery none = ok tt
fatal_discovery (some e) = if is_group_discovery_failed e then ok tt else err e

-- `append(namespaces, "default")` where there are none.
abbrev pub or_default : List String → List String
or_default [] = "default" ∷ []
or_default (ns ∷ namespaces) = ns ∷ namespaces

abbrev pub is_empty : List String → Bool
is_empty [] = true
is_empty (x ∷ xs) = false

module _ (lib : Libraries) where
  unfoldable pub de_duplicate_and_fix_gvks : List GroupVersionKind → Result (List GroupVersionKind)
  unfolding unique_gvks
  de_duplicate_and_fix_gvks gvks =
      and_then (fatal_discovery lib.server_groups.1) (λ _. unique_gvks lib.server_groups.0 [] gvks)

  -- The loop of `deDuplicateLabelSelector`, from the texts so far.
  unfoldable pub unique_selectors : List String → List LabelSelector → List LabelSelector
  unique_selectors texts [] = []
  unique_selectors texts (s ∷ ss) =
      let later = unique_selectors (lib.selector_text s ∷ texts) ss in
      if has (lib.selector_text s) texts then unique_selectors texts ss else s ∷ later

  unfoldable pub de_duplicate_label_selector : List LabelSelector → List LabelSelector
  unfolding unique_selectors
  de_duplicate_label_selector selectors = unique_selectors [] selectors

  -- The clients themselves are parameters of a collection.
  unfoldable pub initialize_kube_clients : LogCollector → Result Accessor
  unfolding new_env
  initialize_kube_clients l = new_env lib.host l.kube_config none

  -- The kubeconfig, with the clients made from it, and the other options.
  unfoldable pub override_kube_config : Flags → LogCollector → Result LogCollector
  unfolding initialize_kube_clients
  override_kube_config f l =
      let configured = record l {
        kube_config =
            if f.changed kubeconfig_flag || l.kube_config == ""
            then f.kube_config
            else l.kube_config;
      } in
      and_then (initialize_kube_clients configured) (λ clients. ok configured)

  abbrev pub clustered_of : Flags → LogCollector → Bool
  clustered_of f l = if f.changed clustered_flag then f.clustered else l.clustered

  unfoldable pub override_options : Flags → LogCollector → LogCollector
  override_options f l = record l {
    loglevel = if f.changed log_level_flag || l.loglevel == "" then f.log_level else l.loglevel;
    clustered = clustered_of f l;
    namespaces =
        if f.changed namespaces_flag || not (clustered_of f l) then f.namespaces else l.namespaces;
    clean_output = if f.changed keep_source_flag then f.keep_source else l.clean_output;
  }

  unfoldable pub override_gvks : Flags → LogCollector → Result LogCollector
  unfolding parse_gvk de_duplicate_and_fix_gvks
  override_gvks f l =
      and_then (if f.changed gvk_flag then parse_gvk f.gvk_slice else ok l.group_version_kinds)
        (λ given.
          and_then (de_duplicate_and_fix_gvks given)
            (λ gvks. ok (record l { group_version_kinds = gvks })))

  unfoldable pub override_labels : Flags → LogCollector → Result LogCollector
  unfolding parse_label_selector de_duplicate_label_selector
  override_labels f l =
      and_then
        (if f.changed labels_flag then parse_label_selector f.label_slice else ok l.label_selectors)
        (λ given. ok (record l { label_selectors = de_duplicate_label_selector given }))

  unfoldable pub override_file_inputs_from_cli : Flags → LogCollector → Result LogCollector
  unfolding override_kube_config override_options override_gvks override_labels
  override_file_inputs_from_cli f l =
      and_then (override_kube_config f l)
        (λ l. and_then (override_gvks f (override_options f l)) (override_labels f))

  unfoldable pub manage_file_inputs : Flags → LogCollector → Result LogCollector
  unfolding override_file_inputs_from_cli
  manage_file_inputs f l =
      and_then
        (if f.input_file_name == ""
          then ok l
          else and_then (lib.read_file f.input_file_name) (λ text. lib.unmarshal_strict text l))
        (override_file_inputs_from_cli f)

  -- What `preRun` does with the options; an error is fatal.
  unfoldable pub check_scope : LogCollector → Result LogCollector
  check_scope l =
      if not (is_empty l.namespaces) && l.clustered
      then err namespaces_of_cluster
      else ok (record l {
        namespaces = if l.clustered then l.namespaces else or_default l.namespaces;
        output_dir = "triliovault-" ++ lib.timestamp;
      })

  unfoldable pub pre_run : Flags → LogCollector → Result LogCollector
  unfolding manage_file_inputs check_scope
  pre_run f l =
      and_then (manage_file_inputs f l)
        (λ l. and_then (lib.parse_level l.loglevel) (λ _. check_scope l))
