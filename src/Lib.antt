-- ===== src/Lib.antt =====
-- A model of the two Go plugins of TrilioVault for Kubernetes. Preflight: the checks of
-- `kubectl tvk-preflight run`, the deletion of `kubectl tvk-preflight cleanup`, and the handling of
-- their inputs. Log-collector: the collection of `kubectl tvk-log-collector`, its inputs and its files.
--
-- Parts. `cmd/preflight/cmd` merges defaults, an input file and flags into the options and validates
-- them; `tools/preflight` performs the checks against a cluster and cleans up. A run generates a suffix
-- for the names and labels of its objects, performs ten checks that each log whether they passed,
-- and, if all passed or the options say so, deletes what its labels select.
--
-- The log-collector: `cmd/log-collector/cmd` merges an input file and flags; `tools/log-collector`
-- checks the namespaces, reads the API resources, filters the objects of each by kind, label and owner,
-- writes them with the logs of pods and the related events below a directory, packs the directory into
-- an archive and removes it. Both plugins make their clients by `internal`, and preflight runs commands by it.
--
-- - Prelude: names of the libraries, lists and maps, tests, and text: paths, splitting at a separator.
-- - Action: a Go function that changes a state and may return an error, the invariants of such actions
--   (`Action.Keeps`), what holds after them (`Action.Triple`), and taking them apart.
-- - Internal: internal/kube_helper.go (which kubeconfig, and the clients from it) and
--   internal/utils/shell/cmd.go. The operating system and the libraries are parameters, and so is the
--   flag library (`Internal.CommandLine`): its hypothesis `KeepsDefaults` says that the variable of a flag
--   that is not given keeps its default.
-- - Kube: the Kubernetes objects that the code builds and reads, the errors, the calls that leave the
--   program (`Kube.Calls.Call`), and the replies to them as a parameter (`Kube.Cluster`).
-- - Preflight.Exec: the state (the package variables `storageVolSnapClass` and `resNameSuffix`, the
--   field `o.SnapshotClass`, the calls made so far and the logged verdicts) and the actions on it,
--   which return a value or an error and keep what they changed before an error.
-- - Preflight.Platform: everything that tools/preflight calls and does not implement.
--   `ExponentialBackoff` is a parameter; the hypothesis `Polls` says that it acts only through its
--   condition and succeeds only right after the condition returned true.
-- - Preflight.Options, Preflight.Specs: options, constants and `create*Spec` of
--   tools/preflight/helper.go.
-- - Preflight.Resources: `CreateResourceNameSuffix`, `deleteK8sResource`, `removeFinalizer`,
--   `GetServerPreferredVersionForGroup`, `getVersionsOfGroup`, `CheckIsOpenshift`.
-- - Preflight.Versions: kubectl, helm, access, version and RBAC checks of tools/preflight/preflight.go.
-- - Preflight.Snapshots: volume snapshot CRDs and classes.
-- - Preflight.Wait: tools/preflight/wait/pod_wait.go, tools/preflight/exec/exec_to_pod.go and the
--   functions of helper.go that call them.
-- - Preflight.Pods: the DNS, capability and volume snapshot checks. Pods.Milestones says which calls,
--   each granted by the cluster, a check that passes has gone through.
-- - Preflight.Cleanup: tools/preflight/cleanup.go. Cleanup.Server says what is relied on of an API server
--   (`ApiServer`): a list has what its labels and its namespace select, a deleted object goes at once or
--   with its last finalizer, `NotFound` means that there is no such object, and the requests of a cleanup
--   create none; and in `IsWilling` that it refuses nothing.
-- - Preflight.Run: `PerformPreflightChecks`. Preflight.Footprint: the calls that belong to a run.
-- - Cmd: cmd/preflight/cmd/helper.go, from text and flags to validated options; in Cmd.Registration the
--   flags of root.go, run.go and cleanup.go; and in Cmd.Commands the commands of run.go and cleanup.go with
--   the log file and the clients. Cmd.Created: the pods that validated options lead to.
-- - Collector.Objects, Collector.Calls, Collector.Cluster: what the log-collector reads, the calls that
--   leave it, and the other side of each call as a parameter, with the order in which Go's runtime goes
--   through a map. Collector.Exec: its state, the field `l.Namespaces` and the calls made so far.
-- - Collector.Labels, Collector.Filters, Collector.Events: tools/log-collector/helper.go.
-- - Collector.Files, Collector.Resources, Collector.Collect: tools/log-collector/log_collector.go: the
--   files and the archive, the objects of a resource, and `CollectLogsAndDump` with what it calls. The
--   hypothesis `VisitsAll` of Files.PodLogs says that a range over a map visits every entry.
-- - Collector.Footprint: the calls that a collection may make, each with those before it.
-- - Collector.Flags, Collector.Registration, Collector.Inputs, Collector.Run: cmd/log-collector/cmd.
-- - Scenarios: concrete clusters and inputs, and runs on them.
--
-- A function of the source has the name of its definition in the spelling of this library
-- (`createDNSPodSpec` is `create_dns_pod_spec`). Methods take the platform and the options as
-- arguments. A Go panic on an index or on a nil pointer is an error. A map is an association list. Texts
-- are joined to a path as `filepath.Join` does with clean paths, and letters are changed in case as for
-- ASCII.
--
-- Bounds. Every loop of the source runs over a list or a fixed count and is structural recursion here;
-- the polls are the platform's, so no fuel is needed. Sizes and times are not computed on, and no
-- machine integer overflows: the quantities of resources are compared by their library.
--
-- Not modelled: log output other than the verdicts, the constructors of library clients, what cobra
-- makes of the arguments, usage texts, closing of files, the interleaving of the goroutine of a command
-- with its receiver beyond whether its first reply arrives in time, and functions of `internal` that no
-- plugin calls.
pub mod Prelude
pub mod Kube
pub mod Action
pub mod Internal
pub mod Preflight
pub mod Cmd
pub mod Collector
pub mod Scenarios
