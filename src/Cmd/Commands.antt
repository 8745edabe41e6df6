-- ===== src/Cmd/Commands.antt =====
-- The two commands of cmd/preflight/cmd (run.go, cleanup.go), with `setupLogger` of helper.go and
-- `InitKubeEnv` of tools/preflight/helper.go.
use Prim.Native.String.{◌++◌}
use tvk_plugins.Prelude.{String, Bool, Option, none, some, ◌≡◌, ◌==◌, []}
use tvk_plugins.Prelude.Tests.{if◌then◌else◌}
use tvk_plugins.Prelude.Lists.{All}
use tvk_plugins.Kube.Objects.{Opaque}
use tvk_plugins.Kube.Calls.{Error, nil_client_set, nil_runtime_client, Result, ok, err, and_then}
use tvk_plugins.Internal.Host.{
  RestConfig, Accessor, Host, get_rest_config, get_runtime_client, get_clientset,
  get_discovery_client,
}
use tvk_plugins.Internal.Kubeconfig.{new_env}
use tvk_plugins.Preflight.Exec.{State}
use tvk_plugins.Preflight.Options.{Run}
use tvk_plugins.Preflight.Platform.{Platform}
use tvk_plugins.Preflight.Platform.Polls.{Polls}
use tvk_plugins.Preflight.Footprint.{RunCall}
use tvk_plugins.Preflight.Cleanup.{Cleanup, cleanup_preflight_resources}
use tvk_plugins.Preflight.Run.{perform_preflight_checks}
use tvk_plugins.Preflight.Run.Calls.{perform-RunCall}
use tvk_plugins.Cmd.Flags.{
  Flags, PreflightCmdOps, library, Outcome, done, ◌>>=◌, from_result, Libraries,
}
use tvk_plugins.Cmd.Inputs.{
  manage_preflight_inputs, validate_run_options, manage_cleanup_inputs, validate_cleanup_fields,
}
use tvk_plugins.Cmd.Inversion.{bind-done, done-path}
use tvk_plugins.Cmd.Accepted.{IsAccepted, validate-done_iff}

-- What the commands use besides: `os.OpenFile` with the flags that create a file and with those that
-- append to one, whether `log.ParseLevel` accepts a level, and the time as the code formats it.
pub record Logging : Type 0 where
  pub create_file : String → Result (Unit {0})
  pub append_file : String → Result (Unit {0})
  pub is_level : String → Bool
  pub timestamp : String

-- The name of the log file, and the level that is set.
pub record LogSetup : Type 0 where
  pub filename : String
  pub level : String

unfoldable pub generate_log_file_name : Logging → String → String
generate_log_file_name lg prefix = prefix ++ "-" ++ lg.timestamp ++ ".log"

-- A level that is none is replaced.
unfoldable pub setup_logger : Logging → String → String → Result LogSetup
unfolding generate_log_file_name
setup_logger lg prefix log_lvl = and_then (lg.create_file (generate_log_file_name lg prefix)) (λ _.
    ok (record {
      filename = generate_log_file_name lg prefix;
      level = if lg.is_level log_lvl then log_lvl else "INFO";
    }))

-- `ServerClients`, the variable `kubeClient`
pub record ServerClients : Type 0 where
  pub client_set : Opaque
  pub runtime_client : Opaque
  pub disc_client : Opaque
  pub rest_config : RestConfig

-- A client that is nil is an error.
unfoldable pub non_nil : Error → Option Opaque → Result Opaque
non_nil e none = err e
non_nil e (some client) = ok client

unfoldable pub set_clients : Accessor → Result ServerClients
unfolding non_nil
set_clients env = and_then (non_nil nil_client_set (get_clientset env)) (λ set.
    and_then (non_nil nil_runtime_client (get_runtime_client env)) (λ client. ok (record {
      client_set = set;
      runtime_client = client;
      disc_client = get_discovery_client env;
      rest_config = get_rest_config env;
    })))

-- With no kubeconfig, the configuration of the library.
unfoldable pub init_kube_env : Host → String → Result ServerClients
unfolding new_env set_clients
init_kube_env host kubeconfig =
    and_then
      (if kubeconfig == ""
        then and_then host.get_config_or_die (λ c. new_env host kubeconfig (some c))
        else new_env host kubeconfig none)
      set_clients

-- The options that the checks run with, whether they failed, and their calls.
pub record RunReport : Type 0 where
  pub options : Run
  pub result : Result (Unit {0})
  pub state : State

abbrev pub run_report : Platform → Run → State → RunReport
run_report p o s = record {
  options = o;
  result = (perform_preflight_checks p o s).0;
  state = (perform_preflight_checks p o s).1;
}

module _ (lib : Libraries) (lg : Logging) (host : Host) where
  -- The command `run` up to its checks.
  unfoldable pub prepare_run : Flags → PreflightCmdOps → Outcome Run
  unfolding manage_preflight_inputs setup_logger init_kube_env validate_run_options from_result
  prepare_run f ops = do
    managed ← manage_preflight_inputs lib f ops
    logger ← from_result library (setup_logger lg "preflight" managed.run.log_level)
    opened ← from_result library (lg.append_file logger.filename)
    clients ← from_result library (init_kube_env host managed.run.kubeconfig)
    valid ← validate_run_options lib managed.run
    done managed.run

  -- The command `cleanup` up to the cleanup.
  unfoldable pub prepare_cleanup : Flags → PreflightCmdOps → Outcome Cleanup
  unfolding manage_cleanup_inputs setup_logger init_kube_env validate_cleanup_fields from_result
  prepare_cleanup f ops = do
    managed ← manage_cleanup_inputs lib f ops
    logger ← from_result library (setup_logger lg "preflight_cleanup" managed.cleanup.log_level)
    clients ← from_result library (init_kube_env host managed.cleanup.kubeconfig)
    opened ← from_result library (lg.append_file logger.filename)
    valid ← validate_cleanup_fields managed.cleanup
    done managed.cleanup

  -- Nothing is asked of the cluster where the inputs are refused.
  unfoldable pub run_command : Platform → Flags → PreflightCmdOps → State → Outcome RunReport
  unfolding prepare_run perform_preflight_checks
  run_command p f ops s = do o ← prepare_run f ops; done (run_report p o s)

  unfoldable pub cleanup_command :
      Platform → Flags → PreflightCmdOps → State → Outcome (Result (Unit {0}) × State)
  unfolding prepare_cleanup cleanup_preflight_resources
  cleanup_command p f ops s = do
    co ← prepare_cleanup f ops
    done (cleanup_preflight_resources p co s)

  prepare_run-IsAccepted :
      (f : Flags) (ops : PreflightCmdOps) (o : Run) → prepare_run f ops ≡ done o → IsAccepted lib o
  unfolding prepare_run
  prepare_run-IsAccepted f ops o h =
      let (managed, m, r1) = bind-done _ _ h in
      let (logger, l, r2) = bind-done _ _ r1 in
      let (opened, a, r3) = bind-done _ _ r2 in
      let (clients, c, r4) = bind-done _ _ r3 in
      let (valid, v, r5) = bind-done _ _ r4 in
      done-path (IsAccepted lib) managed.run o r5 ((validate-done_iff lib managed.run).0 v)

  -- Where `ExponentialBackoff` acts only through its condition and no call was made before: a run that
  -- reaches its checks has options that the validation accepts, and whatever the cluster answers, every
  -- call of its checks and of its cleanup belongs to a run with these options.
  pub run_command-RunCall :
      (p : Platform) (polls : Polls p) (f : Flags) (ops : PreflightCmdOps) (s : State)
      (r : RunReport)
      → s.calls ≡ []
      → run_command p f ops s ≡ done r
      → IsAccepted lib r.options × All (RunCall r.options r.state.res_name_suffix) r.state.calls
  unfolding run_command
  run_command-RunCall p polls f ops s r fresh h =
      let (o, prepared, reported) = bind-done (prepare_run f ops) _ h in
      done-path
        (λ x.
          IsAccepted lib x.options × All (RunCall x.options x.state.res_name_suffix) x.state.calls)
        (run_report p o s) r reported
        (prepare_run-IsAccepted f ops o prepared, perform-RunCall p polls o s fresh)
