-- ===== src/Scenarios/Registering.antt =====
-- The options of a command line that gives one flag.
use tvk_plugins.Prelude.{◌==◌}
use tvk_plugins.Prelude.Tests.{if◌then◌else◌}
use tvk_plugins.Internal.CommandLine.{CommandLine}
use tvk_plugins.Cmd.Flags.{Flags, PreflightCmdOps, continue, ◌>>=◌, storage_class_flag}
use tvk_plugins.Cmd.Inputs.{manage_preflight_inputs}
use tvk_plugins.Cmd.Registration.{registered_flags, initial_cmd_ops}
use tvk_plugins.Scenarios.Commands.{host}
use tvk_plugins.Scenarios.Inputs.{libraries, start_ops, outcome_of}

abbrev one_flag : CommandLine
one_flag = record {
  changed = λ name. name == storage_class_flag;
  string_var = λ name short default. if name == storage_class_flag then "csi-gce-pd" else default;
  bool_var = λ name short default. default;
  string_slice_var = λ name short default. default;
}

abbrev flags : Flags
unfolding registered_flags
flags = registered_flags one_flag host "/root/.kube/config"

abbrev options : PreflightCmdOps
unfolding manage_preflight_inputs initial_cmd_ops continue ◌>>=◌
options =
    outcome_of start_ops
      (manage_preflight_inputs libraries flags (initial_cmd_ops (record { text = "0" })))
