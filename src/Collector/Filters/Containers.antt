-- ===== src/Collector/Filters/Containers.antt =====
-- Which containers have logs: `getContainers` of tools/log-collector/helper.go.
use tvk_plugins.Prelude.{
  String, Bool, ◌&&◌, ◌||◌, Option, none, some, List, [], ◌∷◌, ◌++◌, ◌==◌, ◌≡◌, refl, sym, ◌∙◌, ap,
  inl, inr,
}
use tvk_plugins.Prelude.Tests.{if◌then◌else◌, Bool-cases}
use tvk_plugins.Prelude.Lists.{lookup, insert, lookup-insert-same, lookup-insert-apart}
use tvk_plugins.Collector.Objects.{ContainerStatus, PodStatus}
use tvk_plugins.Collector.Cluster.{ContainerStat}
use tvk_plugins.Collector.Filters.{get_container_status_value, add_containers, get_containers}

-- The container has run, now or before.
abbrev pub has_run : ContainerStatus → Bool
has_run c = (get_container_status_value c).curr || (get_container_status_value c).prev

-- The last of the containers with that name that has run, or what was there.
abbrev pub last_run : String → List ContainerStatus → Option ContainerStat → Option ContainerStat
last_run name [] before = before
last_run name (c ∷ cs) before =
    last_run name cs
      (if has_run c && c.name == name then some (get_container_status_value c) else before)

last_run-append :
    (name : String) (cs ds : List ContainerStatus) (before : Option ContainerStat)
    → last_run name (cs ++ ds) before ≡ last_run name ds (last_run name cs before)
last_run-append name [] ds before = refl
last_run-append name (c ∷ cs) ds before = last_run-append name cs ds _

module _ (name : String) where
  added :
      (c : ContainerStatus) (m : List (String × ContainerStat))
      → lookup name (if has_run c then insert c.name (get_container_status_value c) m else m) ≡ (
          if has_run c && c.name == name
          then some (get_container_status_value c)
          else lookup name m)
  added c m = elim (Bool-cases (has_run c)) [
    | inr never ↦ rw never refl
    | inl ran ↦ elim (Bool-cases (c.name == name)) [
      | inl same ↦
          rw (ran, same) (lookup-insert-same c.name name (get_container_status_value c) m same)
      | inr apart ↦
          rw (ran, apart) (lookup-insert-apart c.name name (get_container_status_value c) m apart)
    ]
  ]

  add_containers-last_run :
      (cs : List ContainerStatus) (m : List (String × ContainerStat))
      → lookup name (add_containers cs m) ≡ last_run name cs (lookup name m)
  unfolding add_containers
  add_containers-last_run [] m = refl
  add_containers-last_run (c ∷ cs) m =
      add_containers-last_run cs _ ∙ ap (last_run name cs) (added c m)

  -- The map of a pod's containers has, under each name, the states of the last container with that name
  -- that has run, now or before, where the init containers come last; a name of which none has run is
  -- not in it.
  pub get_containers-last_run :
      (pod : PodStatus)
      → lookup name (get_containers pod)
        ≡ last_run name (pod.container_statuses ++ pod.init_container_statuses) none
  unfolding get_containers lookup
  get_containers-last_run pod =
      add_containers-last_run pod.init_container_statuses (add_containers pod.container_statuses [])
      ∙ ap (last_run name pod.init_container_statuses)
          (add_containers-last_run pod.container_statuses [])
      ∙ sym (last_run-append name pod.container_statuses pod.init_container_statuses none)
