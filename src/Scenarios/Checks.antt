-- ===== src/Scenarios/Checks.antt =====
-- Parts of the checks on concrete inputs.
use Prim.Native.Char.{Char}
use tvk_plugins.Prelude.{String, true, ◌&&◌, none, some, List, [], ◌∷◌, ◌≡◌, refl, inl, inr, ◌↔◌}
use tvk_plugins.Kube.Objects.{Pod, VolumeSnapshotClass, no_gvk, found}
use tvk_plugins.Kube.Calls.{Call, ok}
use tvk_plugins.Preflight.Exec.{pure, raise, lift, ask, try, on_option, on_result, ◌>>=◌}
use tvk_plugins.Preflight.Wait.{
  PodWaitOptions, ExecOptions, has_condition, wait_until_pod_condition, poll_pod,
}
use tvk_plugins.Preflight.Wait.Outcomes.{wait-ok}
use tvk_plugins.Preflight.Snapshots.{
  has_driver, is_default, select_class, check_and_create_volume_snapshot_crds,
}
use tvk_plugins.Preflight.Snapshots.Crds.{IsPresent, crds-IsPresent}
use tvk_plugins.Preflight.Options.{volume_snapshot_crds}
use tvk_plugins.Prelude.Lists.{All}
use tvk_plugins.Preflight.Snapshots.Choice.{Any, IsDefaultOf, select-IsDefaultOf}
use tvk_plugins.Preflight.Versions.{find_api_version}
use tvk_plugins.Preflight.Versions.Rbac.{IsFound, find-ok_iff}
use tvk_plugins.Scenarios.Cluster.{platform, platform-Polls, start}

abbrev lookup_command : ExecOptions
lookup_command = record {
  namespace = "default";
  command = "nslookup" ∷ "kubernetes.default" ∷ [];
  pod_name = "dnsutils-abcdef";
  container_name = "dnsutils";
}

abbrev dns_pod : PodWaitOptions
dns_pod = record { name = "dnsutils-abcdef"; namespace = "default"; pod_condition = "Ready" }

dns_pod_ready : (wait_until_pod_condition platform dns_pod start).0 ≡ ok tt
unfolding wait_until_pod_condition poll_pod pure raise ask try on_option ◌>>=◌
dns_pod_ready = refl

wait-ok_example :
    (h : List Call) × (pod : Pod) × (platform.get_pod h "default" "dnsutils-abcdef" ≡ ok pod)
    × (has_condition "Ready" pod.conditions ≡ true)
    × ((wait_until_pod_condition platform dns_pod start).1.calls
        ≡ Call.get_pod "default" "dnsutils-abcdef" ∷ h)
wait-ok_example = wait-ok platform platform-Polls dns_pod start dns_pod_ready

abbrev class_of : String → String → String → VolumeSnapshotClass
class_of name driver mark = record {
  gvk = no_gvk;
  name = name;
  driver = some driver;
  deletion_policy = none;
  is_default_class = found mark;
}

abbrev classes : List VolumeSnapshotClass
classes =
    class_of "slow" "pd" "false"
    ∷ class_of "other" "ebs" "true"
    ∷ class_of "fast" "pd" "true"
    ∷ class_of "last" "pd" "false"
    ∷ []

has_default : Any (λ c. has_driver "pd" c && is_default c.is_default_class ≡ true) classes
unfolding has_driver is_default
has_default = inr (inr (inl refl))

select_fast : select_class "pd" "" classes ≡ "fast"
unfolding select_class
select_fast = refl

select-IsDefaultOf_example : Any (IsDefaultOf "pd" (select_class "pd" "" classes)) classes
select-IsDefaultOf_example = select-IsDefaultOf "pd" "" classes has_default

find-ok_iff_example :
    ((find_api_version platform "rbac.authorization.k8s.io" "v1" ("a" ∷ []) start).0 ≡ ok tt)
    ↔ IsFound platform "rbac.authorization.k8s.io" "v1" ("a" ∷ [])
find-ok_iff_example = find-ok_iff platform "rbac.authorization.k8s.io" "v1" ("a" ∷ []) start

abbrev helm_output : String
helm_output = "version.BuildInfo{v3.8.1+g5cb9af4}"

crds_installed : (check_and_create_volume_snapshot_crds platform "v1.24.0" start).0 ≡ ok tt
unfolding check_and_create_volume_snapshot_crds pure raise lift ask try on_option on_result ◌>>=◌
crds_installed = refl

crds-IsPresent_example : (version : String) × All (IsPresent platform version) volume_snapshot_crds
crds-IsPresent_example = crds-IsPresent platform "v1.24.0" start crds_installed
