-- ===== src/Cmd/Registration.antt =====
-- The flags as cmd/preflight/cmd registers them (the `init` functions of root.go, run.go and
-- cleanup.go), and the package variables when a command starts.
pub mod FromFlags
use tvk_plugins.Prelude.{String, Bool, false, none, [], ◌≡◌}
use tvk_plugins.Kube.Objects.{Quantity}
use tvk_plugins.Internal.CommandLine.{CommandLine}
use tvk_plugins.Internal.Host.{Host}
use tvk_plugins.Internal.Kubeconfig.{get_kubeconfig_path}
use tvk_plugins.Preflight.Options.{CommonOptions, Run}
use tvk_plugins.Cmd.Flags.{
  Flags, PreflightCmdOps, namespace_flag, kubeconfig_flag, log_level_flag, in_cluster_flag,
  storage_class_flag, snapshot_class_flag, local_registry_flag, image_pull_sec_flag,
  service_account_flag, cleanup_on_failure_flag, pvc_storage_request_flag, node_selector_flag,
  uid_flag,
}

abbrev pub pod_limit_flag : String
pod_limit_flag = "limits"

abbrev pub pod_request_flag : String
pod_request_flag = "requests"

abbrev pub config_file_flag : String
config_file_flag = "config-file"

abbrev pub default_log_level : String
default_log_level = "INFO"

abbrev pub default_ns : String
default_ns = "default"

module _ (cl : CommandLine) where
  -- The variables before any flag is registered.
  abbrev pub package_variables : Flags
  package_variables = record {
    changed = cl.changed;
    kubeconfig = "";
    namespace = "";
    log_level = "";
    storage_class = "";
    snapshot_class = "";
    local_registry = "";
    image_pull_secret = "";
    service_account = "";
    cleanup_on_failure = false;
    input_file_name = "";
    pod_limits = "";
    pod_requests = "";
    pvc_storage_request = "";
    node_selector = "";
    cleanup_uid = "";
    in_cluster = false;
  }

  -- `init` of root.go; `KubeConfigDefault` is an argument.
  unfoldable pub root_flags : Host → String → Flags → Flags
  unfolding get_kubeconfig_path
  root_flags host kube_config_default f = record f {
    kubeconfig =
        cl.string_var kubeconfig_flag "k" (get_kubeconfig_path host kube_config_default false);
    namespace = cl.string_var namespace_flag "n" default_ns;
    log_level = cl.string_var log_level_flag "l" default_log_level;
    input_file_name = cl.string_var config_file_flag "f" "";
    in_cluster = cl.bool_var in_cluster_flag "i" false;
  }

  unfoldable pub run_flags : Flags → Flags
  run_flags f = record f {
    storage_class = cl.string_var storage_class_flag "" "";
    snapshot_class = cl.string_var snapshot_class_flag "" "";
    local_registry = cl.string_var local_registry_flag "" "";
    image_pull_secret = cl.string_var image_pull_sec_flag "" "";
    service_account = cl.string_var service_account_flag "" "";
    cleanup_on_failure = cl.bool_var cleanup_on_failure_flag "" false;
    pod_limits = cl.string_var pod_limit_flag "" "";
    pod_requests = cl.string_var pod_request_flag "" "";
    pvc_storage_request = cl.string_var pvc_storage_request_flag "" "";
    node_selector = cl.string_var node_selector_flag "" "";
  }

  unfoldable pub cleanup_flags : Flags → Flags
  cleanup_flags f = record f { cleanup_uid = cl.string_var uid_flag "" "" }

  -- All flags are registered when a command starts.
  unfoldable pub registered_flags : Host → String → Flags
  unfolding root_flags run_flags cleanup_flags
  registered_flags host kube_config_default =
      run_flags (root_flags host kube_config_default (cleanup_flags package_variables))

abbrev no_common_options : CommonOptions
no_common_options = record { kubeconfig = ""; namespace = ""; log_level = ""; in_cluster = false }

-- `cmdOps = &preflightCmdOps{}`, from the quantity with no amount.
unfoldable pub initial_cmd_ops : Quantity → PreflightCmdOps
initial_cmd_ops nothing = record {
  run = record {
    run_options = record {
      storage_class = "";
      snapshot_class = "";
      local_registry = "";
      image_pull_secret = "";
      service_account_name = "";
      perform_cleanup_on_fail = false;
      pvc_storage_request = nothing;
      resource_requirements = record { requests = []; limits = [] };
      pod_sched_ops = record { node_selector = []; affinity = none; tolerations = [] };
    };
    common_options = no_common_options;
  };
  cleanup = record { uid = ""; common_options = no_common_options };
}
