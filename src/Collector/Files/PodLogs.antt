-- ===== src/Collector/Files/PodLogs.antt =====
-- Which logs of a pod are written: `writeLogs` and `writeLog` of tools/log-collector/log_collector.go.
use tvk_plugins.Prelude.{
  String, Bool, true, false, none, some, List, [], ◌∷◌, ◌++◌, ◌≡◌, refl, ap, ◌∙◌, ◌⊎◌, inl, inr,
  arith, subst,
}
use tvk_plugins.Prelude.Tests.{if◌then◌else◌}
use tvk_plugins.Prelude.Lists.{All, Any, lookup}
use tvk_plugins.Kube.Calls.{Error, is_not_found, Result, ok, err}
use tvk_plugins.Action.Triple.{
  Triple, Triple-ok, Triple-of_Keeps, Triple-return, Triple-frame, Triple-if, Triple-bind,
  Triple-to, Triple-from,
}
use tvk_plugins.Collector.Objects.{KubeObject, get_name, get_namespace, LogCollector, PodStatus}
use tvk_plugins.Collector.Calls.{Call}
use tvk_plugins.Collector.Cluster.{ContainerStat, Cluster}
use tvk_plugins.Collector.Exec.{State, Exec, pure, raise, ask, try, ◌>>=◌, on_result}
use tvk_plugins.Collector.Exec.Keeps.{Keeps, Stable, Keeps-pure}
use tvk_plugins.Collector.Filters.{get_containers}
use tvk_plugins.Collector.Filters.Containers.{last_run, get_containers-last_run}
use tvk_plugins.Collector.Files.{
  resource_path, ensure_dir, write_log, write_container_logs, in_container_order, write_logs,
}
use tvk_plugins.Collector.Files.Logged.{Anything, Logged, Logged-later, AllLogged, write_log-Logged}
use tvk_plugins.Collector.Files.Keeps.{
  WritesBelow, write_log-Keeps, write_container_logs-Keeps, resource_path-Below,
}
use tvk_plugins.Prelude.Text.Prefix.{Below}

-- The runtime's order goes through every entry of a map of containers.
abbrev pub VisitsAll : Cluster → Type 0
VisitsAll p =
    (h : List Call) (cs : List (String × ContainerStat)) (name : String) (stat : ContainerStat)
    → lookup name cs ≡ some stat
    → Any (λ c. (c.0 ≡ name) × (c.1 ≡ stat)) (p.order_containers h cs)

of_entry :
    (P : (String × ContainerStat) → Type 0) (name : String) (stat : ContainerStat)
    (cs : List (String × ContainerStat))
    → All P cs
    → Any (λ c. (c.0 ≡ name) × (c.1 ≡ stat)) cs
    → P (name, stat)
of_entry P name stat [] all found = elim found [ ]
of_entry P name stat (c ∷ cs) (holds, all) (inl (named, same)) =
    subst P (λ i. (named i, same i)) holds
of_entry P name stat (c ∷ cs) (holds, all) (inr later) = of_entry P name stat cs all later

abbrev AnyCall : Call → Type 0
AnyCall c = Unit

any_writes : (dir : String) → WritesBelow dir AnyCall
any_writes dir = record {
  stat = λ path below. tt;
  mkdir_all = λ path below. tt;
  create = λ path below. tt;
  write = λ path text below. tt;
  get_pod = λ ns name. tt;
  stream_logs = λ ns name container previous. tt;
}

module _ (p : Cluster) (l : LogCollector) (dir ns name : String)
    (below : Below l.output_dir dir) where
  -- One log, where it is wanted.
  abbrev One : Bool → String → Bool → State → Type 0
  One wanted container previous s = wanted ≡ true → Logged p dir ns name container previous s.calls

  One-Stable :
      (wanted : Bool) (container : String) (previous : Bool)
      → Stable (One wanted container previous) AnyCall
  One-Stable wanted container previous = record {
    call = λ s c q h yes. Logged-later p dir ns name container previous c s.calls (h yes);
    ocp = λ s h. h;
  }

  selected-One :
      (wanted : Bool) (container : String) (previous : Bool)
      → Triple Anything
          (if wanted then write_log p dir ns name container previous else pure tt)
          (λ w. One wanted container previous)
          Anything
  selected-One true container previous =
      Triple-to _ (write_log-Logged p dir ns name container previous) (λ w s h yes. h) (λ s h. h)
  selected-One false container previous = Triple-return tt (λ s h yes. absurd (ground arith))

  selected-Keeps :
      {P : State → Type 0}
      → Stable P AnyCall
      → (wanted : Bool) (container : String) (previous : Bool)
      → Keeps P (if wanted then write_log p dir ns name container previous else pure tt)
  selected-Keeps stable true container previous =
      write_log-Keeps stable p l (any_writes l.output_dir) dir ns name container previous below
  selected-Keeps stable false container previous = Keeps-pure tt

  framed :
      {A : Type 0} {F : State → Type 0} {post : A → State → Type 0} (m : Exec A)
      → Triple Anything m post Anything
      → Keeps F m
      → Triple F m (λ a s. post a s × F s) Anything
  framed m t k = Triple-from m (λ s h. (tt, h)) (Triple-frame m t k)

  Both-Stable :
      {P R : State → Type 0} → Stable P AnyCall → Stable R AnyCall → Stable (λ s. P s × R s) AnyCall
  Both-Stable a b = record {
    call = λ s c q h. (a.call s c q h.0, b.call s c q h.1);
    ocp = λ s h. (a.ocp s h.0, b.ocp s h.1);
  }

  containers-Logged :
      (cs : List (String × ContainerStat))
      → Triple Anything
          (write_container_logs p dir ns name cs)
          (λ w s. All (λ c. AllLogged p dir ns name c.0 c.1 s.calls) cs)
          Anything
  unfolding write_container_logs
  containers-Logged [] = Triple-return tt (λ s h. tt)
  containers-Logged (c ∷ cs) =
      let current = One-Stable c.1.curr c.0 false in
      let previous = One-Stable c.1.prev c.0 true in
      Triple-bind _ _ (selected-One c.1.curr c.0 false) (λ w.
        Triple-bind _ _
          (framed _ (selected-One c.1.prev c.0 true) (selected-Keeps current c.1.prev c.0 true))
          (λ v.
            Triple-to _
              (framed _ (containers-Logged cs) (
                write_container_logs-Keeps (Both-Stable previous current) p l
                  (any_writes l.output_dir) dir ns name cs below))
              (λ u s h. ((h.1.1, h.1.0), h.0)) (λ s h. h)))

module _ (p : Cluster) (l : LogCollector) (kind : String) (obj : KubeObject) where
  abbrev place : String
  place = resource_path l kind (get_namespace obj)

  -- The pod was read: it is gone, or each container name of which one has run has its logs.
  abbrev pub PodLogged : List Call → Type 0
  PodLogged calls =
      (later : List Call) × (earlier : List Call) × (calls
        ≡ later ++ (Call.get_pod (get_namespace obj) (get_name obj) ∷ earlier))
      × (((e : Error) × (p.get_pod earlier (get_namespace obj) (get_name obj) ≡ err e)
            × (is_not_found e ≡ true))
          ⊎ ((pod : PodStatus) × (p.get_pod earlier (get_namespace obj) (get_name obj) ≡ ok pod)
              × ((container : String) (stat : ContainerStat)
                  → last_run container (pod.container_statuses ++ pod.init_container_statuses) none
                    ≡ some stat
                  → AllLogged p place (get_namespace obj) (get_name obj) container stat calls)))

  -- The pod was read with that reply.
  abbrev Read : Result PodStatus → State → Type 0
  Read r s =
      (later : List Call) × (earlier : List Call) × (s.calls
        ≡ later ++ (Call.get_pod (get_namespace obj) (get_name obj) ∷ earlier))
      × (p.get_pod earlier (get_namespace obj) (get_name obj) ≡ r)

  Read-Stable : (r : Result PodStatus) → Stable (Read r) AnyCall
  Read-Stable r = record {
    call = λ s c q h. (c ∷ h.0, h.1, ap (λ x. c ∷ x) h.2, h.3);
    ocp = λ s h. h;
  }

  module _ (visits : VisitsAll p) where
    containers-PodLogged :
        (pod : PodStatus) (h : List Call)
        → Triple
            (Read (ok pod))
            (write_container_logs p place
              (get_namespace obj)
              (get_name obj)
              (p.order_containers h (get_containers pod)))
            (λ w s. PodLogged s.calls)
            Anything
    containers-PodLogged pod h =
        let below = resource_path-Below l kind (get_namespace obj) in
        Triple-to _
          (framed p l place (get_namespace obj) (get_name obj) below _
            (containers-Logged p l place (get_namespace obj) (get_name obj) below _)
            (write_container_logs-Keeps (Read-Stable (ok pod)) p l (any_writes l.output_dir) place
              (get_namespace obj) (get_name obj) _ below))
          (λ w s k. (
            k.1.0,
            k.1.1,
            k.1.2,
            inr (
              pod,
              k.1.3,
              λ container stat ran.
                  of_entry
                    (λ c. AllLogged p place (get_namespace obj) (get_name obj) c.0 c.1 s.calls)
                    container stat _ k.0
                    (visits h (get_containers pod) container stat
                      (get_containers-last_run container pod ∙ ran)),
            ),
          ))
          (λ s k. k)

    read-PodLogged :
        (r : Result PodStatus)
        → Triple
            (Read r)
            (on_result r
              (λ e. if is_not_found e then pure tt else raise e)
              (λ pod. (do
                containers ← in_container_order p (get_containers pod)
                write_container_logs p place (get_namespace obj) (get_name obj) containers)))
            (λ w s. PodLogged s.calls)
            Anything
    unfolding on_result in_container_order raise ◌>>=◌
    read-PodLogged (err e) =
        Triple-if (is_not_found e) _ _
          (λ gone. Triple-return tt (λ s h. (h.0, h.1, h.2, inl (e, h.3, gone))))
          (λ other. record { at = λ s h. tt })
    read-PodLogged (ok pod) = record { at = λ s h. (containers-PodLogged pod s.calls).at s h }

    asked :
        Triple Anything
          (try (
            ask
              (Call.get_pod (get_namespace obj) (get_name obj))
              (λ h. p.get_pod h (get_namespace obj) (get_name obj))))
          (λ r s. Read r s)
          Anything
    unfolding try ask
    asked = record { at = λ s h. ([], s.calls, refl, refl) }

    logs : Triple Anything (write_logs p l kind obj) (λ w s. PodLogged s.calls) Anything
    unfolding write_logs
    logs =
        Triple-bind _ _ (Triple-of_Keeps (ensure_dir p place) (record { at = λ s h. tt }))
          (λ made. Triple-bind _ _ asked (λ r. read-PodLogged r))

    -- Where the runtime's order goes through every entry of a map: if the logs of a pod are written
    -- without an error, then the pod was read, and is not there any more or has, for each name of which
    -- a container has run, the current log if that container is running or has ended, and the previous
    -- log if it ran before; each of these was asked for, and refused, or read whole and written whole.
    pub write_logs-PodLogged :
        (s : State)
        → (write_logs p l kind obj s).0 ≡ ok tt
        → PodLogged (write_logs p l kind obj s).1.calls
    unfolding write_logs
    write_logs-PodLogged s h = Triple-ok (write_logs p l kind obj) s tt logs tt h
