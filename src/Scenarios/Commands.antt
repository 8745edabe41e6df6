-- ===== src/Scenarios/Commands.antt =====
-- The commands, and the code that they share, on concrete inputs.
use Prim.Native.String.{◌++◌}
use tvk_plugins.Prelude.{String, true, false, none, some, List, [], ◌∷◌, map, ◌≡◌, ◌≢◌, refl}
use tvk_plugins.Prelude.Lists.{All}
use tvk_plugins.Kube.Objects.{Labels}
use tvk_plugins.Kube.Calls.{ok, and_then}
use tvk_plugins.Internal.Host.{RestConfig, Host}
use tvk_plugins.Internal.Kubeconfig.{new_config_from_commandline}
use tvk_plugins.Internal.Kubeconfig.Source.{ComesFrom, IsThere, new_config-ComesFrom}
use tvk_plugins.Preflight.Footprint.{RunCall}
use tvk_plugins.Cmd.Flags.{done, continue, ◌>>=◌}
use tvk_plugins.Cmd.Accepted.{IsAccepted}
use tvk_plugins.Cmd.Commands.{Logging, prepare_run, run_command, run_report, run_command-RunCall}
use tvk_plugins.Collector.Objects.{GroupVersionKind, LogCollector}
use tvk_plugins.Collector.Flags.{Flags, Libraries, parse_gvk, parse_label_selector}
use tvk_plugins.Collector.Flags.Printed.{
  print_gvk, print_labels, selector_of, parse_gvk-print, parse_label_selector-print,
}
use tvk_plugins.Collector.Inputs.{pre_run}
use tvk_plugins.Collector.Inputs.Scope.{HasScope, pre_run-HasScope}
use tvk_plugins.Scenarios.Cluster.{platform, platform-Polls, start}
use tvk_plugins.Scenarios.Collecting.{collector}
use tvk_plugins.Scenarios.Inputs

abbrev config : RestConfig
config = record { source = record { text = "" }; no_warnings = false }

abbrev pub host : Host
host = record {
  lookup_env = λ name. some "~/config";
  expand = λ path. ok "/root/config";
  stat_size = λ path. ok 120;
  build_config_from_flags = λ path. ok config;
  get_config_or_die = ok config;
  new_clientset = λ c. ok (some (record { text = "" }));
  new_dynamic_rest_mapper = λ c. ok (record { text = "" });
  new_client = λ c mapper. ok (some (record { text = "" }));
  new_discovery_client = λ c. ok (record { text = "" });
}

-- The options of an input file with a namespace of its own.
abbrev of_file : LogCollector
of_file = record collector { namespaces = "backup" ∷ []; kube_config = "/root/config" }

abbrev one_namespace : Flags
one_namespace = record {
  changed = λ name. false;
  namespaces = [];
  clustered = false;
  kube_config = "/root/.kube/config";
  keep_source = false;
  log_level = "INFO";
  input_file_name = "";
  gvk_slice = [];
  label_slice = [];
}

abbrev libraries : Libraries
libraries = record {
  read_file = λ f. ok "";
  unmarshal_strict = λ text l. ok l;
  host = host;
  server_groups = (record { name = "apps"; preferred_version = "v1" } ∷ [], none);
  selector_text = λ s. "";
  parse_level = λ level. ok (record { text = level });
  timestamp = "2024-01-02T03-04-05";
}

-- The namespace of the file is lost.
abbrev accepted : LogCollector
accepted = record of_file {
  namespaces = "default" ∷ [];
  output_dir = "triliovault-2024-01-02T03-04-05";
}

accepted_lem : pre_run libraries one_namespace of_file ≡ ok accepted
unfolding pre_run and_then
accepted_lem = refl

pre_run-HasScope_example :
    (accepted.output_dir ≡ "triliovault-" ++ "2024-01-02T03-04-05")
    × HasScope libraries one_namespace accepted
pre_run-HasScope_example = pre_run-HasScope libraries one_namespace of_file accepted accepted_lem

abbrev kind_of : String → String → String → GroupVersionKind
kind_of group version kind = record { group = group; version = version; kind = kind }

abbrev requests : List GroupVersionKind
requests =
    kind_of "apps" "" "Deployment" ∷ kind_of "Apps" "" "deployment" ∷ kind_of "" "v1" "Pod" ∷ []

abbrev kept : List GroupVersionKind
kept = kind_of "apps" "v1" "Deployment" ∷ kind_of "" "v1" "Pod" ∷ []

parse_gvk-print_example :
    parse_gvk (map print_gvk (kind_of "a" "v" "K" ∷ [])) ≡ ok (kind_of "a" "v" "K" ∷ [])
parse_gvk-print_example =
    parse_gvk-print (kind_of "a" "v" "K" ∷ []) (((refl, tt), (refl, tt), (refl, tt), refl), tt)

abbrev app : Labels
app = ("a", "b") ∷ ("c", "d") ∷ []

app-given : app ≢ []
app-given e = cc

parse_label_selector-print_example :
    parse_label_selector (map print_labels (app ∷ [])) ≡ ok (map selector_of (app ∷ []))
parse_label_selector-print_example = parse_label_selector-print (app ∷ []) (
  (
    app-given,
    (
      (((refl, tt), (refl, tt)), ((refl, tt), (refl, tt))),
      ((((refl, tt), (refl, tt)), ((refl, tt), (refl, tt))), tt),
    ),
  ),
  tt,
)

from_environment : new_config_from_commandline host "" ≡ ok "/root/config"
unfolding new_config_from_commandline and_then
from_environment = refl

new_config-ComesFrom_example :
    (source : String) × ComesFrom host "" source
    × (host.expand source ≡ ok "/root/config")
    × IsThere host "/root/config"
new_config-ComesFrom_example = new_config-ComesFrom host "" "/root/config" from_environment

abbrev logging : Logging
logging = record {
  create_file = λ name. ok tt;
  append_file = λ name. ok tt;
  is_level = λ level. true;
  timestamp = "2024-1-2T3-4-5";
}

checked :
    run_command Inputs.libraries logging host platform Inputs.no_flags Inputs.start_ops start
    ≡ done (run_report platform Inputs.accepted.run start)
unfolding run_command prepare_run ◌>>=◌ continue and_then
checked = refl

run_command-RunCall_example :
    IsAccepted Inputs.libraries Inputs.accepted.run
    × All
        (RunCall Inputs.accepted.run
          (run_report platform Inputs.accepted.run start).state.res_name_suffix)
        (run_report platform Inputs.accepted.run start).state.calls
run_command-RunCall_example =
    run_command-RunCall Inputs.libraries logging host platform platform-Polls Inputs.no_flags
      Inputs.start_ops start (run_report platform Inputs.accepted.run start) refl checked
