-- ===== src/Scenarios/Logging.antt =====
-- The logs of one pod on the concrete cluster.
use tvk_plugins.Prelude.{String, some, List, [], ◌∷◌, ◌==◌, ◌≡◌, refl, inl, inr, eq_iff, arith}
use tvk_plugins.Prelude.Tests.{Bool-cases}
use tvk_plugins.Prelude.Lists.{Any, lookup}
use tvk_plugins.Kube.Calls.{ok}
use tvk_plugins.Collector.Cluster.{ContainerStat}
use tvk_plugins.Collector.Exec.{State, pure, lift, ask, try, ◌>>=◌, on_result}
use tvk_plugins.Collector.Files.{write_logs}
use tvk_plugins.Collector.Files.PodLogs.{VisitsAll, PodLogged, write_logs-PodLogged}
use tvk_plugins.Scenarios.Collecting.{cluster, collector, our_pod}

entry_there :
    (cs : List (String × ContainerStat)) (name : String) (stat : ContainerStat)
    → lookup name cs ≡ some stat
    → Any (λ c. (c.0 ≡ name) × (c.1 ≡ stat)) cs
unfolding lookup
entry_there [] name stat h = cc
entry_there (c ∷ cs) name stat h = elim (Bool-cases (c.0 == name)) [
  | inl same ↦ inl ((eq_iff c.0 name).0 same, ground (arith, h, same))
  | inr apart ↦ inr (entry_there cs name stat (ground (arith, h, apart)))
]

cluster-VisitsAll : VisitsAll cluster
cluster-VisitsAll h cs name stat e = entry_there cs name stat e

abbrev before : State
before = record { namespaces = "default" ∷ []; calls = [] }

written : (write_logs cluster collector "Pod" our_pod before).0 ≡ ok tt
unfolding write_logs ask try pure lift on_result ◌>>=◌
written = refl

write_logs-PodLogged_example :
    PodLogged cluster collector "Pod" our_pod
      (write_logs cluster collector "Pod" our_pod before).1.calls
write_logs-PodLogged_example =
    write_logs-PodLogged cluster collector "Pod" our_pod cluster-VisitsAll before written
