-- ===== src/Collector/Registration.antt =====
-- The flags as cmd/log-collector/cmd registers them (`logCollectorCommand` of root.go), and the options
-- when the command starts.
pub mod FromFlags
use tvk_plugins.Prelude.{String, Bool, true, false, List, []}
use tvk_plugins.Internal.CommandLine.{CommandLine}
use tvk_plugins.Internal.Host.{Host}
use tvk_plugins.Internal.Kubeconfig.{get_kubeconfig_path}
use tvk_plugins.Collector.Objects.{LogCollector}
use tvk_plugins.Collector.Flags.{
  Flags, clustered_flag, namespaces_flag, keep_source_flag, gvk_flag, labels_flag, kubeconfig_flag,
  log_level_flag,
}

-- `namespacesDefault`, a variable that nothing sets
abbrev pub namespaces_default : List String
namespaces_default = []

-- `KubeConfigDefault` is an argument.
unfoldable pub log_collector_command : CommandLine → Host → String → Flags
unfolding get_kubeconfig_path
log_collector_command cl host kube_config_default = record {
  changed = cl.changed;
  namespaces = cl.string_slice_var namespaces_flag "n" namespaces_default;
  clustered = cl.bool_var clustered_flag "c" false;
  kube_config =
      cl.string_var kubeconfig_flag "k" (get_kubeconfig_path host kube_config_default true);
  keep_source = cl.bool_var keep_source_flag "s" false;
  log_level = cl.string_var log_level_flag "l" "INFO";
  input_file_name = cl.string_var "config-file" "f" "";
  gvk_slice = cl.string_slice_var gvk_flag "g" [];
  label_slice = cl.string_slice_var labels_flag "r" [];
}

-- The package variable `logCollector` before it is set.
abbrev pub initial_log_collector : LogCollector
initial_log_collector = record {
  output_dir = "";
  clean_output = false;
  clustered = false;
  namespaces = [];
  loglevel = "";
  kube_config = "";
  label_selectors = [];
  group_version_kinds = [];
}
