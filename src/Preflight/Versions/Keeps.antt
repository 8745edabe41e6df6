-- ===== src/Preflight/Versions/Keeps.antt =====
-- What the version checks keep.
use tvk_plugins.Prelude.{String, true, List, [], ◌∷◌}
use tvk_plugins.Kube.Calls.{Call}
use tvk_plugins.Preflight.Exec.{State, helm, log_verdict}
use tvk_plugins.Preflight.Exec.Keeps.{Keeps, Stable, keeps_rules}
use tvk_plugins.Preflight.Platform.{Platform}
use tvk_plugins.Preflight.Resources.Keeps.{check_is_openshift-Keeps}
use tvk_plugins.Preflight.Versions.{
  get_helm_version, get_semver_version, get_pref_snapshot_class_version, validate_kubectl,
  validate_helm_binary, validate_cluster_access, validate_helm_version,
  validate_system_helm_version, validate_kubernetes_version, find_api_version,
  validate_kubernetes_rbac,
}

module _ {P : State → Type 0} {Q : Call → Type 0} (stable : Stable P Q) (p : Platform) where
  get_semver_version-Keeps : (v : String) → Keeps P (get_semver_version p v)
  unfolding get_semver_version
  get_semver_version-Keeps v = search keeps_rules

  pub get_pref_snapshot_class_version-Keeps :
      (v : String) → Keeps P (get_pref_snapshot_class_version p v)
  unfolding get_pref_snapshot_class_version
  get_pref_snapshot_class_version-Keeps v = search keeps_rules depth 8

  pub validate_kubectl-Keeps : (n : String) → Q (Call.look_path n) → Keeps P (validate_kubectl p n)
  unfolding validate_kubectl
  validate_kubectl-Keeps n q = search (keeps_rules, stable)

  pub validate_cluster_access-Keeps :
      (n : String) → Q (Call.get_namespace n) → Keeps P (validate_cluster_access p n)
  unfolding validate_cluster_access
  validate_cluster_access-Keeps n q = search (keeps_rules, stable)

  validate_helm_binary-Keeps :
      (n : String) → Q (Call.look_path n) → Keeps P (validate_helm_binary p n)
  unfolding validate_helm_binary
  validate_helm_binary-Keeps n q = search (keeps_rules, stable)

  get_helm_version-Keeps :
      (n : String) → ((c : String) → Q (Call.run_cmd c)) → Keeps P (get_helm_version p n)
  unfolding get_helm_version
  get_helm_version-Keeps n q = search (keeps_rules, stable, q)

  validate_helm_version-Keeps : (v : String) → Keeps P (validate_helm_version p v)
  unfolding validate_helm_version
  validate_helm_version-Keeps v = search keeps_rules depth 8

  -- Up to the line that the helm check logs itself.
  pub validate_system_helm_version-Keeps :
      Keeps P (log_verdict helm true)
      → (n : String) → ((g : String) → Q (Call.server_resources g))
      → ((b : String) → Q (Call.look_path b))
      → ((c : String) → Q (Call.run_cmd c))
      → Keeps P (validate_system_helm_version p n)
  unfolding validate_system_helm_version
  validate_system_helm_version-Keeps logged n qs ql qr =
      search
        (
          keeps_rules, stable, qs, ql, qr, check_is_openshift-Keeps, validate_helm_binary-Keeps,
          get_helm_version-Keeps, validate_helm_version-Keeps,
        )
        depth 9

  pub validate_kubernetes_version-Keeps :
      (v : String) → Q Call.server_version → Keeps P (validate_kubernetes_version p v)
  unfolding validate_kubernetes_version
  validate_kubernetes_version-Keeps v q = search (keeps_rules, stable) depth 8

  find_api_version-Keeps : (g v : String) (l : List String) → Keeps P (find_api_version p g v l)
  unfolding find_api_version
  find_api_version-Keeps g v [] = search keeps_rules
  find_api_version-Keeps g v (a ∷ l) = search (keeps_rules, find_api_version-Keeps g v l)

  pub validate_kubernetes_rbac-Keeps :
      (g v : String) → Q Call.server_groups → Keeps P (validate_kubernetes_rbac p g v)
  unfolding validate_kubernetes_rbac
  validate_kubernetes_rbac-Keeps g v q =
      search (keeps_rules, stable, find_api_version-Keeps) depth 7
