-- ===== src/Collector/Files/Keeps.antt =====
-- What writing the files of a collection keeps: invariants that survive calls below the output
-- directory.

use tvk_plugins.Prelude.{String, Bool, true, false, List, [], ◌∷◌, ◌≡◌}
use tvk_plugins.Prelude.Text.{dot_first_slash}
use tvk_plugins.Prelude.Text.Prefix.{Below, Below-self, Below-append, Below-join}
use tvk_plugins.Kube.Calls.{Result, ok}
use tvk_plugins.Collector.Objects.{KubeObject, get_name, get_namespace, LogCollector}
use tvk_plugins.Collector.Calls.{Call}
use tvk_plugins.Collector.Cluster.{LogReply, refused_stream, streamed, ContainerStat, Cluster}
use tvk_plugins.Collector.Exec.{State, pure, lift, ask, ◌>>=◌}
use tvk_plugins.Collector.Exec.Keeps.{
  Keeps, Stable, Keeps-bind, Keeps-on_result, Keeps-pure, Keeps-ask, Keeps-lift-bind, Keeps-try,
  Keeps-read, keeps_rules,
}
use tvk_plugins.Collector.Files.{
  resource_path, yaml_path, log_path, mkdir_all, write_object, ensure_dir, write_yaml, write_log,
  write_container_logs, in_container_order, write_logs, write_events, write_namespaces_of_events,
  write_events_to_file,
}

-- The calls that write below a directory.
pub record WritesBelow (dir : String) (Q : Call → Type 0) : Type 0 where
  pub stat : (path : String) → Below dir path → Q (Call.stat path)
  pub mkdir_all : (path : String) → Below dir path → Q (Call.mkdir_all path)
  pub create : (path : String) → Below dir path → Q (Call.create path)
  pub write : (path text : String) → Below dir path → Q (Call.write path text)
  pub get_pod : (ns name : String) → Q (Call.get_pod ns name)
  pub stream_logs :
      (ns name container : String) (previous : Bool)
      → Q (Call.stream_logs ns name container previous)

module _ (l : LogCollector) where
  pub resource_path-Below : (dir ns : String) → Below l.output_dir (resource_path l dir ns)
  unfolding resource_path
  resource_path-Below dir ns = Below-join _ _ ns (Below-join _ _ dir (Below-self l.output_dir))

  pub yaml_path-Below :
      (dir name : String) → Below l.output_dir dir → Below l.output_dir (yaml_path dir name)
  unfolding yaml_path
  yaml_path-Below dir name below = Below-append _ _ ".yaml" (Below-join _ _ name below)

  log_path-Below :
      (dir name container : String) (previous : Bool)
      → Below l.output_dir dir
      → Below l.output_dir (log_path dir name container previous)
  unfolding log_path
  log_path-Below dir name container previous below = Below-append _ _ _ (Below-join _ _ name below)

module _ {P : State → Type 0} {Q : Call → Type 0} (stable : Stable P Q) (p : Cluster) where
  pub write_object-Keeps :
      (path : String) (value : KubeObject)
      → Q (Call.create path)
      → ((text : String) → p.marshal value ≡ ok text → Q (Call.write path text))
      → Keeps P (write_object p path value)
  unfolding write_object
  write_object-Keeps path value qc qw = Keeps-bind _ _ (Keeps-ask stable _ _ qc) (λ c.
      Keeps-lift-bind (p.marshal value) _
        (λ text e. Keeps-bind _ _ (Keeps-ask stable _ _ (qw text e)) (λ w. Keeps-pure tt)))

  pub write_yaml-Keeps :
      (l : LogCollector) (dir : String) (obj : KubeObject)
      → Q (Call.mkdir_all (resource_path l dir (get_namespace obj)))
      → Q (Call.create (yaml_path (resource_path l dir (get_namespace obj)) (get_name obj)))
      → ((text : String)
          → p.marshal obj ≡ ok text
          → Q (
              Call.write (yaml_path (resource_path l dir (get_namespace obj)) (get_name obj)) text))
      → Keeps P (write_yaml p l dir obj)
  unfolding write_yaml mkdir_all
  write_yaml-Keeps l dir obj qm qc qw =
      Keeps-bind _ _ (Keeps-ask stable _ _ qm) (λ m. write_object-Keeps _ obj qc qw)

  module _ (l : LogCollector) (q : WritesBelow l.output_dir Q) where
    pub write_yaml-Keeps-Below :
        (dir : String) (obj : KubeObject) → Keeps P (write_yaml p l dir obj)
    write_yaml-Keeps-Below dir obj =
        let below = resource_path-Below l dir (get_namespace obj) in
        let path_below = yaml_path-Below l _ (get_name obj) below in
        write_yaml-Keeps l dir obj (q.mkdir_all _ below) (q.create _ path_below)
          (λ text e. q.write _ text path_below)

    pub ensure_dir-Keeps : (path : String) → Below l.output_dir path → Keeps P (ensure_dir p path)
    unfolding ensure_dir mkdir_all
    ensure_dir-Keeps path below =
        let stat = q.stat path below in
        let made = q.mkdir_all path below in search (keeps_rules, stable) depth 8

    write_text-Keeps :
        (path : String) (r : Result String)
        → Below l.output_dir path
        → Keeps P (do
          buf ← lift r
          created ← ask (Call.create path) (λ h. p.create h path)
          written ← ask (Call.write path buf) (λ h. p.write h path buf)
          pure tt)
    write_text-Keeps path r below = Keeps-lift-bind r _ (λ buf e.
        Keeps-bind _ _ (Keeps-ask stable _ _ (q.create path below)) (λ c.
          Keeps-bind _ _ (Keeps-ask stable _ _ (q.write path buf below)) (λ w. Keeps-pure tt)))

    replied-Keeps :
        (dir ns name container : String) (previous : Bool) (reply : LogReply)
        → Below l.output_dir dir
        → Keeps P (elim reply [
          | refused_stream e ↦ pure tt
          | streamed text ↦ (do
            buf ← lift text
            let path = log_path dir name container previous
            created ← ask (Call.create path) (λ h. p.create h path)
            written ← ask (Call.write path buf) (λ h. p.write h path buf)
            pure tt)
        ])
    replied-Keeps dir ns name container previous (refused_stream e) below = Keeps-pure tt
    replied-Keeps dir ns name container previous (streamed text) below =
        write_text-Keeps _ text (log_path-Below l dir name container previous below)

    pub write_log-Keeps :
        (dir ns name container : String) (previous : Bool)
        → Below l.output_dir dir
        → Keeps P (write_log p dir ns name container previous)
    unfolding write_log
    write_log-Keeps dir ns name container previous below =
        Keeps-bind _ _ (Keeps-ask stable _ _ (q.stream_logs ns name container previous))
          (λ reply. replied-Keeps dir ns name container previous reply below)

    pub write_container_logs-Keeps :
        (dir ns name : String) (cs : List (String × ContainerStat))
        → Below l.output_dir dir
        → Keeps P (write_container_logs p dir ns name cs)
    unfolding write_container_logs
    write_container_logs-Keeps dir ns name [] below = Keeps-pure tt
    write_container_logs-Keeps dir ns name (c ∷ cs) below =
        let rest = write_container_logs-Keeps dir ns name cs below in
        let current = write_log-Keeps dir ns name c.0 false below in
        let previous = write_log-Keeps dir ns name c.0 true below in search keeps_rules depth 6

    pub write_logs-Keeps : (dir : String) (obj : KubeObject) → Keeps P (write_logs p l dir obj)
    unfolding write_logs in_container_order
    write_logs-Keeps dir obj =
        let below = resource_path-Below l dir (get_namespace obj) in
        let dir_made = ensure_dir-Keeps _ below in
        let pod = q.get_pod (get_namespace obj) (get_name obj) in
        Keeps-bind _ _ dir_made (λ made.
          Keeps-bind _ _ (Keeps-try _ (Keeps-ask stable _ _ pod)) (λ r.
            Keeps-on_result r _ _ (λ e. search keeps_rules)
              (λ pod.
                Keeps-bind _ _ (Keeps-read _) (λ cs. write_container_logs-Keeps _ _ _ cs below))))

    write_events-Keeps :
        (dir : String) (es : List (String × KubeObject))
        → Below l.output_dir dir
        → Keeps P (write_events p dir es)
    unfolding write_events
    write_events-Keeps dir [] below = Keeps-pure tt
    write_events-Keeps dir (e ∷ es) below =
        let path_below = yaml_path-Below l dir (dot_first_slash e.0) below in
        Keeps-bind _ _
          (write_object-Keeps _ e.1 (q.create _ path_below) (λ text m. q.write _ text path_below))
          (λ w. write_events-Keeps dir es below)

    write_namespaces_of_events-Keeps :
        (ns : List (String × List (String × KubeObject)))
        → Keeps P (write_namespaces_of_events p l ns)
    unfolding write_namespaces_of_events
    write_namespaces_of_events-Keeps [] = Keeps-pure tt
    write_namespaces_of_events-Keeps (n ∷ ns) =
        let below = resource_path-Below l "Events" n.0 in
        Keeps-bind _ _ (ensure_dir-Keeps _ below) (λ made.
          Keeps-bind _ _ (write_events-Keeps _ n.1 below)
            (λ w. write_namespaces_of_events-Keeps ns))

    pub write_events_to_file-Keeps :
        (events : List (String × List (String × KubeObject)))
        → Keeps P (write_events_to_file p l events)
    unfolding write_events_to_file
    write_events_to_file-Keeps events = record {
      at = λ s h. (write_namespaces_of_events-Keeps (p.order_events s.calls events)).at s h;
    }
