-- ===== src/Cmd/Inputs.antt =====
-- cmd/preflight/cmd/helper.go: input file, flags and validation of the inputs.
use Prim.Native.String.{len}
use tvk_plugins.Prelude.{ℕ, String, not, ◌&&◌, ◌||◌, ◌==◌}
use tvk_plugins.Prelude.Tests.{nat_eq, if◌then◌else◌}
use tvk_plugins.Kube.Objects.{Labels, ResourceRequirements}
use tvk_plugins.Kube.Calls.{Result, ok, err}
use tvk_plugins.Preflight.Options.{CommonOptions, Run}
use tvk_plugins.Preflight.Cleanup.{Cleanup}
use tvk_plugins.Cmd.Values.{
  quantity_of, update_res_req_from_cli, update_pvc_storage_request, set_res_req_default_values,
  update_node_selector_labels_from_cli,
}
use tvk_plugins.Cmd.Flags.{
  Flags, PreflightCmdOps, library, reading_input, updating_node_selector, storage_class_required,
  secret_without_registry, memory_above_limit, cpu_above_limit, invalid_uid, Outcome, done, refused,
  ◌>>=◌, from_result, Libraries, namespace_flag, kubeconfig_flag, log_level_flag, in_cluster_flag,
  storage_class_flag, snapshot_class_flag, local_registry_flag, image_pull_sec_flag,
  service_account_flag, cleanup_on_failure_flag, uid_flag,
}

abbrev pub preflight_uid_length : ℕ
preflight_uid_length = 6

unfoldable pub update_common_inputs_from_cli : Flags → CommonOptions → CommonOptions
update_common_inputs_from_cli f c = record {
  kubeconfig =
      if f.changed kubeconfig_flag || c.kubeconfig == "" then f.kubeconfig else c.kubeconfig;
  namespace = if f.changed namespace_flag || c.namespace == "" then f.namespace else c.namespace;
  log_level = if f.changed log_level_flag || c.log_level == "" then f.log_level else c.log_level;
  in_cluster = if f.changed in_cluster_flag || c.in_cluster then f.in_cluster else c.in_cluster;
}

abbrev pub set_opt : Flags → String → String → String → String
set_opt f flag given kept = if f.changed flag then given else kept

unfoldable pub with_resource_requirements : PreflightCmdOps → ResourceRequirements → PreflightCmdOps
with_resource_requirements ops r = record ops {
  run = record ops.run { run_options = record ops.run.run_options { resource_requirements = r } };
}

unfoldable pub wrap : Outcome Labels → Outcome Labels
wrap (done m) = done m
wrap (refused e) = refused (updating_node_selector e)

module _ (lib : Libraries) where
  unfoldable pub override_preflight_file_inputs_from_cli :
      Flags → PreflightCmdOps → Outcome PreflightCmdOps
  unfolding wrap update_common_inputs_from_cli update_pvc_storage_request
      update_node_selector_labels_from_cli update_res_req_from_cli
  override_preflight_file_inputs_from_cli f ops = do
    pvc_storage_request ← update_pvc_storage_request lib f ops.run.pvc_storage_request
    node_selector ←
        wrap (update_node_selector_labels_from_cli f ops.run.pod_sched_ops.node_selector)
    resource_requirements ← update_res_req_from_cli lib f ops.run.resource_requirements
    done (record ops {
      run = record {
        run_options = record {
          storage_class = set_opt f storage_class_flag f.storage_class ops.run.storage_class;
          snapshot_class = set_opt f snapshot_class_flag f.snapshot_class ops.run.snapshot_class;
          local_registry = set_opt f local_registry_flag f.local_registry ops.run.local_registry;
          image_pull_secret =
              set_opt f image_pull_sec_flag f.image_pull_secret ops.run.image_pull_secret;
          service_account_name =
              set_opt f service_account_flag f.service_account ops.run.service_account_name;
          perform_cleanup_on_fail =
              if f.changed cleanup_on_failure_flag
              then f.cleanup_on_failure
              else ops.run.perform_cleanup_on_fail;
          pvc_storage_request = pvc_storage_request;
          resource_requirements = resource_requirements;
          pod_sched_ops = record ops.run.pod_sched_ops { node_selector = node_selector };
        };
        common_options = update_common_inputs_from_cli f ops.run.common_options;
      };
    })

  unfoldable pub read_file_input_options : String → PreflightCmdOps → Result PreflightCmdOps
  read_file_input_options filename ops = elim (lib.read_file filename) [
    | ok text ↦ lib.unmarshal_strict text ops
    | err e ↦ err e
  ]

  unfoldable pub manage_preflight_inputs : Flags → PreflightCmdOps → Outcome PreflightCmdOps
  unfolding set_res_req_default_values read_file_input_options from_result
      override_preflight_file_inputs_from_cli with_resource_requirements
  manage_preflight_inputs f ops = do
    defaults ← set_res_req_default_values lib
    let start = with_resource_requirements ops defaults
    read ←
        (if f.input_file_name == ""
          then done start
          else from_result reading_input (read_file_input_options f.input_file_name start))
    override_preflight_file_inputs_from_cli f read

  unfoldable pub validate_run_options : Run → Outcome (Unit {0})
  unfolding quantity_of
  validate_run_options o =
      if o.storage_class == ""
      then refused storage_class_required
      else (if not (o.image_pull_secret == "") && o.local_registry == ""
          then refused secret_without_registry
          else (if lib.value_above (quantity_of lib "memory" o.resource_requirements.requests)
                (quantity_of lib "memory" o.resource_requirements.limits)
              then refused memory_above_limit
              else (if lib.float_above (quantity_of lib "cpu" o.resource_requirements.requests)
                    (quantity_of lib "cpu" o.resource_requirements.limits)
                  then refused cpu_above_limit
                  else done tt)))

  unfoldable pub override_cleanup_file_inputs_from_cli : Flags → Cleanup → Cleanup
  unfolding update_common_inputs_from_cli
  override_cleanup_file_inputs_from_cli f co = record {
    uid = set_opt f uid_flag f.cleanup_uid co.uid;
    common_options = update_common_inputs_from_cli f co.common_options;
  }

  unfoldable pub manage_cleanup_inputs : Flags → PreflightCmdOps → Outcome PreflightCmdOps
  unfolding read_file_input_options from_result override_cleanup_file_inputs_from_cli
  manage_cleanup_inputs f ops = do
    read ←
        (if f.input_file_name == ""
          then done ops
          else from_result library (read_file_input_options f.input_file_name ops))
    done (record read { cleanup = override_cleanup_file_inputs_from_cli f read.cleanup })

unfoldable pub validate_cleanup_fields : Cleanup → Outcome (Unit {0})
validate_cleanup_fields co =
    if not (co.uid == "") && not (nat_eq (len co.uid) preflight_uid_length)
    then refused invalid_uid
    else done tt
