-- ===== src/Cmd/Registration/FromFlags.antt =====
-- The options of a run that names no input file.
use tvk_plugins.Prelude.{String, false, ◌≡◌}
use tvk_plugins.Internal.CommandLine.{CommandLine, KeepsDefaults}
use tvk_plugins.Internal.Host.{Host}
use tvk_plugins.Internal.Kubeconfig.{get_kubeconfig_path}
use tvk_plugins.Cmd.Flags.{
  PreflightCmdOps, namespace_flag, kubeconfig_flag, log_level_flag, in_cluster_flag,
  storage_class_flag, snapshot_class_flag, local_registry_flag, image_pull_sec_flag,
  service_account_flag, cleanup_on_failure_flag,
}

module _ (cl : CommandLine) (keeps : KeepsDefaults cl) (host : Host)
    (kube_config_default : String) where
  -- The options of the flags that every command has: from the flags, registered with their defaults.
  abbrev pub IsCommon : PreflightCmdOps → Type 0
  IsCommon ops =
      (ops.run.kubeconfig
        ≡ cl.string_var kubeconfig_flag "k" (get_kubeconfig_path host kube_config_default false))
      × (ops.run.namespace ≡ cl.string_var namespace_flag "n" "default")
      × (ops.run.log_level ≡ cl.string_var log_level_flag "l" "INFO")
      × (ops.run.in_cluster ≡ cl.bool_var in_cluster_flag "i" false)

  -- The options of the flags of `run` that are texts or truth values.
  abbrev pub IsOwn : PreflightCmdOps → Type 0
  IsOwn ops =
      (ops.run.storage_class ≡ cl.string_var storage_class_flag "" "")
      × (ops.run.snapshot_class ≡ cl.string_var snapshot_class_flag "" "")
      × (ops.run.local_registry ≡ cl.string_var local_registry_flag "" "")
      × (ops.run.image_pull_secret ≡ cl.string_var image_pull_sec_flag "" "")
      × (ops.run.service_account_name ≡ cl.string_var service_account_flag "" "")
      × (ops.run.perform_cleanup_on_fail ≡ cl.bool_var cleanup_on_failure_flag "" false)
