-- ===== src/Scenarios/Inputs.antt =====
-- The inputs of the commands on concrete flags.
use tvk_plugins.Prelude.{String, true, false, none, [], ◌∷◌, ◌≡◌, refl, ◌↔◌, ◌==◌}
use tvk_plugins.Prelude.Lists.{All, lookup}
use tvk_plugins.Kube.Objects.{Labels}
use tvk_plugins.Kube.Calls.{ok}
use tvk_plugins.Preflight.Options.{CommonOptions, Run}
use tvk_plugins.Preflight.Specs.{
  Capability, create_dns_pod_spec, create_volume_snapshot_pod_spec, create_restore_pod_spec,
  create_pod_spec_with_capability,
}
use tvk_plugins.Cmd.Flags.{Flags, PreflightCmdOps, Libraries, Outcome, done, continue, ◌>>=◌}
use tvk_plugins.Cmd.Values.{quantity_of, parse_node_selector_labels}
use tvk_plugins.Cmd.Inputs.{manage_preflight_inputs, validate_run_options}
use tvk_plugins.Cmd.Accepted.{IsAccepted, validate-done_iff}
use tvk_plugins.Cmd.Created.{IsWellFormed, specs-IsWellFormed}
use tvk_plugins.Cmd.Selectors.{
  IsPair, pairs, last_value, lookup-parse_node_selector_labels, parse-done_iff,
}
use tvk_plugins.Scenarios.Cluster.{options}

abbrev pub no_flags : Flags
no_flags = record {
  changed = λ name. false;
  kubeconfig = "/root/.kube/config";
  namespace = "default";
  log_level = "INFO";
  storage_class = "";
  snapshot_class = "";
  local_registry = "";
  image_pull_secret = "";
  service_account = "";
  cleanup_on_failure = false;
  input_file_name = "";
  pod_limits = "";
  pod_requests = "cpu=300m";
  pvc_storage_request = "";
  node_selector = "";
  cleanup_uid = "";
  in_cluster = false;
}

-- The options of an input file with `inCluster: true`.
abbrev of_file : CommonOptions
of_file = record { kubeconfig = ""; namespace = "backup"; log_level = ""; in_cluster = true }

abbrev pub libraries : Libraries
libraries = record {
  parse_quantity = λ s. ok (record { text = s });
  zero = record { text = "0" };
  is_zero = λ q. q.text == "0";
  value_above = λ a b. false;
  float_above = λ a b. false;
  read_file = λ f. ok "";
  unmarshal_strict = λ text ops. ok ops;
}

abbrev pub start_ops : PreflightCmdOps
start_ops = record { run = options; cleanup = record { uid = ""; common_options = of_file } }

abbrev pub outcome_of : {A : Type 0} → A → Outcome A → A
outcome_of d (done a) = a
outcome_of d _ = d

abbrev pub accepted : PreflightCmdOps
unfolding manage_preflight_inputs continue ◌>>=◌
accepted = outcome_of start_ops (manage_preflight_inputs libraries no_flags start_ops)

accepted_lem : manage_preflight_inputs libraries no_flags start_ops ≡ done accepted
unfolding manage_preflight_inputs accepted continue ◌>>=◌
accepted_lem = refl

validate-done_iff_example :
    (validate_run_options libraries options ≡ done tt) ↔ IsAccepted libraries options
validate-done_iff_example = validate-done_iff libraries options

abbrev zones : String
zones = "zone=a,disk=ssd,zone=b"

abbrev zone_labels : Labels
zone_labels = ("zone", "b") ∷ ("disk", "ssd") ∷ []

zones_parse : parse_node_selector_labels zones ≡ done zone_labels
unfolding parse_node_selector_labels continue ◌>>=◌
zones_parse = refl

lookup-parse_node_selector_labels_example :
    lookup "zone" zone_labels ≡ last_value "zone" (pairs zones) none
lookup-parse_node_selector_labels_example =
    lookup-parse_node_selector_labels "zone" zones zone_labels zones_parse

parse-done_iff_example :
    ((m : Labels) × (parse_node_selector_labels zones ≡ done m)) ↔ All IsPair (pairs zones)
parse-done_iff_example = parse-done_iff zones

abbrev private_registry : Run
private_registry = record options {
  run_options = record options.run_options {
    local_registry = "registry.local";
    image_pull_secret = "pull";
  };
}

private_registry-validated : validate_run_options libraries private_registry ≡ done tt
unfolding validate_run_options quantity_of
private_registry-validated = refl

abbrev no_privileges : Capability
no_privileges = record { user_id = 1001; allow_privilege_escalation = false; privileged = false }

specs-IsWellFormed_example :
    IsWellFormed libraries private_registry (create_dns_pod_spec private_registry "abcdef")
    × IsWellFormed libraries private_registry
        (create_volume_snapshot_pod_spec "source-pvc-abcdef" private_registry "abcdef")
    × IsWellFormed libraries private_registry (
        create_restore_pod_spec "restored-pod-abcdef" "source-pvc-abcdef" "abcdef" private_registry)
    × IsWellFormed libraries private_registry
        (create_pod_spec_with_capability private_registry "restored-pod-abcdef" no_privileges)
specs-IsWellFormed_example =
    specs-IsWellFormed libraries private_registry private_registry-validated "abcdef"
      "restored-pod-abcdef" "source-pvc-abcdef" no_privileges
