-- ===== src/Collector/Files.antt =====
-- The files of a collection: `writeYaml`, `writeLogs`, `writeLog`, `writeEventsToFile` and `zipDir` of
-- tools/log-collector/log_collector.go. What closes a file is left out.
pub mod Keeps
pub mod Logged
pub mod PodLogs
use Prim.Native.String.{◌++◌}
use tvk_plugins.Prelude.{String, Bool, true, false, none, some, List, [], ◌∷◌}
use tvk_plugins.Prelude.Tests.{if◌then◌else◌}
use tvk_plugins.Prelude.Text.{dot_first_slash, join_path}
use tvk_plugins.Kube.Calls.{is_not_found, Result, ok, err}
use tvk_plugins.Collector.Objects.{KubeObject, get_name, get_namespace, LogCollector}
use tvk_plugins.Collector.Calls.{Call}
use tvk_plugins.Collector.Cluster.{
  LogReply, refused_stream, streamed, WalkEntry, ContainerStat, Cluster,
}
use tvk_plugins.Collector.Exec.{
  Exec, pure, raise, lift, ask, try, ◌>>=◌, ◌>>◌, on_option, on_result,
}
use tvk_plugins.Collector.Filters.{get_containers}

-- The folder of an object below the output directory.
unfoldable pub resource_path : LogCollector → String → String → String
unfolding join_path
resource_path l resource_dir ns = join_path (join_path l.output_dir resource_dir) ns

unfoldable pub yaml_path : String → String → String
unfolding join_path
yaml_path dir name = join_path dir name ++ ".yaml"

unfoldable pub log_path : String → String → String → Bool → String
unfolding join_path
log_path dir name container is_previous =
    join_path dir name
    ++ "."
    ++ container
    ++ (if is_previous then ".previous.log" else ".current.log")

module _ (p : Cluster) where
  unfoldable pub mkdir_all : String → Exec String
  mkdir_all path = ask (Call.mkdir_all path) (λ h. p.mkdir_all h path)

  -- `os.Create`, `Marshal` and `Write`
  unfoldable pub write_object : String → KubeObject → Exec (Unit {0})
  write_object path value = do
    created ← ask (Call.create path) (λ h. p.create h path)
    buf ← lift (p.marshal value)
    written ← ask (Call.write path buf) (λ h. p.write h path buf)
    pure tt

  -- `os.Stat` with `os.IsNotExist`, then `os.MkdirAll`; any other error of `Stat` is passed over.
  unfoldable pub ensure_dir : String → Exec (Unit {0})
  unfolding mkdir_all
  ensure_dir path = do
    r ← try (ask (Call.stat path) (λ h. p.stat h path))
    on_result r (λ e. if is_not_found e then mkdir_all path >> pure tt else pure tt) (λ _. pure tt)

  unfoldable pub write_yaml : LogCollector → String → KubeObject → Exec (Unit {0})
  unfolding mkdir_all write_object resource_path yaml_path
  write_yaml l resource_dir obj = do
    let path = resource_path l resource_dir (get_namespace obj)
    made ← mkdir_all path
    write_object (yaml_path path (get_name obj)) obj

  -- A stream that is refused is only logged.
  unfoldable pub write_log : String → String → String → String → Bool → Exec (Unit {0})
  unfolding log_path
  write_log resource_dir obj_ns obj_name container is_previous = do
    reply ←
        ask (Call.stream_logs obj_ns obj_name container is_previous)
          (λ h. ok (p.stream_logs h obj_ns obj_name container is_previous))
    elim reply [
      | refused_stream e ↦ pure tt
      | streamed text ↦ (do
        buf ← lift text
        let path = log_path resource_dir obj_name container is_previous
        created ← ask (Call.create path) (λ h. p.create h path)
        written ← ask (Call.write path buf) (λ h. p.write h path buf)
        pure tt)
    ]

  -- The loop over the containers.
  unfoldable pub write_container_logs :
      String → String → String → List (String × ContainerStat) → Exec (Unit {0})
  unfolding write_log
  write_container_logs dir obj_ns obj_name [] = pure tt
  write_container_logs dir obj_ns obj_name (c ∷ cs) = do
    (if c.1.curr then write_log dir obj_ns obj_name c.0 false else pure tt)
    (if c.1.prev then write_log dir obj_ns obj_name c.0 true else pure tt)
    write_container_logs dir obj_ns obj_name cs

  -- The range over the map of containers, in the runtime's order.
  unfoldable pub in_container_order :
      List (String × ContainerStat) → Exec (List (String × ContainerStat))
  in_container_order containers s = (ok (p.order_containers s.calls containers), s)

  unfoldable pub write_logs : LogCollector → String → KubeObject → Exec (Unit {0})
  unfolding resource_path ensure_dir in_container_order get_containers write_container_logs
  write_logs l resource_dir obj = do
    let path = resource_path l resource_dir (get_namespace obj)
    ensure_dir path
    r ← try (
        ask (Call.get_pod (get_namespace obj) (get_name obj))
          (λ h. p.get_pod h (get_namespace obj) (get_name obj)))
    on_result r (λ e. if is_not_found e then pure tt else raise e)
        (λ pod. (do
          containers ← in_container_order (get_containers pod)
          write_container_logs path (get_namespace obj) (get_name obj) containers))

  -- The objects of one namespace, each under its key.
  unfoldable pub write_events : String → List (String × KubeObject) → Exec (Unit {0})
  unfolding write_object yaml_path dot_first_slash
  write_events dir [] = pure tt
  write_events dir (e ∷ es) = do
    write_object (yaml_path dir (dot_first_slash e.0)) e.1
    write_events dir es

  unfoldable pub write_namespaces_of_events :
      LogCollector → List (String × List (String × KubeObject)) → Exec (Unit {0})
  unfolding resource_path ensure_dir write_events
  write_namespaces_of_events l [] = pure tt
  write_namespaces_of_events l (n ∷ ns) = do
    let dir = resource_path l "Events" n.0
    ensure_dir dir
    write_events dir n.1
    write_namespaces_of_events l ns

  unfoldable pub write_events_to_file :
      LogCollector → List (String × List (String × KubeObject)) → Exec (Unit {0})
  unfolding write_namespaces_of_events
  write_events_to_file l events s = write_namespaces_of_events l (p.order_events s.calls events) s

  -- The function that `filepath.Walk` calls, and the walk over its entries; an error ends it.
  unfoldable pub walker : WalkEntry → Exec (Unit {0})
  walker entry =
      on_option entry.error
        (if entry.is_dir then pure tt else do
          opened ← ask (Call.open_file entry.path) (λ h. p.open_file h entry.path)
          made ← ask (Call.zip_create entry.path) (λ h. p.zip_create h entry.path)
          copied ← ask (Call.zip_copy entry.path) (λ h. p.zip_copy h entry.path)
          pure tt)
        raise

  unfoldable pub walk_entries : List WalkEntry → Exec (Unit {0})
  unfolding walker
  walk_entries [] = pure tt
  walk_entries (entry ∷ entries) = do walker entry; walk_entries entries

  unfoldable pub remove_all : String → Exec String
  remove_all path = ask (Call.remove_all path) (λ h. p.remove_all h path)

  unfoldable pub zip_dir : LogCollector → Exec (Unit {0})
  unfolding walk_entries remove_all
  zip_dir l = do
    let zip = l.output_dir ++ ".zip"
    created ← ask (Call.create zip) (λ h. p.create h zip)
    entries ← ask (Call.walk l.output_dir) (λ h. ok (p.walk h l.output_dir))
    walk_entries entries
    if l.clean_output then pure tt else remove_all l.output_dir >> pure tt
