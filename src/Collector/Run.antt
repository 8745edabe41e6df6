-- ===== src/Collector/Run.antt =====
-- The log-collector as a command: `preRun` and then `runLogCollector` of cmd/log-collector/cmd/root.go.
use tvk_plugins.Prelude.{[]}
use tvk_plugins.Kube.Calls.{Result, ok, and_then}
use tvk_plugins.Collector.Objects.{LogCollector}
use tvk_plugins.Collector.Cluster.{Cluster}
use tvk_plugins.Collector.Exec.{State}
use tvk_plugins.Collector.Flags.{Flags, Libraries}
use tvk_plugins.Collector.Inputs.{pre_run}
use tvk_plugins.Collector.Collect.{collect_logs_and_dump}

-- The options that a run ends with, whether it failed, and its calls.
pub record Report : Type 0 where
  pub options : LogCollector
  pub result : Result (Unit {0})
  pub state : State

abbrev initial : LogCollector → State
initial l = record { namespaces = l.namespaces; calls = [] }

abbrev pub report_of : Cluster → LogCollector → Report
report_of p l = record {
  options = l;
  result = (collect_logs_and_dump p l (initial l)).0;
  state = (collect_logs_and_dump p l (initial l)).1;
}

-- An error of `preRun` is fatal, so nothing is collected.
unfoldable pub run_log_collector : Libraries → Cluster → Flags → LogCollector → Result Report
unfolding pre_run collect_logs_and_dump
run_log_collector lib p f l = and_then (pre_run lib f l) (λ options. ok (report_of p options))
