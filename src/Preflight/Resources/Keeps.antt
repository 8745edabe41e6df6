-- ===== src/Preflight/Resources/Keeps.antt =====
-- What deletion, suffixes and group lookups keep.
use tvk_plugins.Prelude.{ℕ, zero, suc, String}
use tvk_plugins.Kube.Objects.{GroupVersionKind, Object}
use tvk_plugins.Kube.Calls.{Call}
use tvk_plugins.Preflight.Exec.{State}
use tvk_plugins.Preflight.Exec.Keeps.{Keeps, Stable, keeps_rules, Keeps-bind}
use tvk_plugins.Preflight.Platform.{Platform}
use tvk_plugins.Preflight.Resources.{
  delete_k8s_resource, random_letters, create_resource_name_suffix,
  get_server_preferred_version_for_group, get_versions_of_group, check_is_openshift,
}

module _ {P : State → Type 0} {Q : Call → Type 0} (stable : Stable P Q) (p : Platform) where
  pub delete_k8s_resource-Keeps :
      (obj : Object)
      → Q (Call.delete obj)
      → ((g : GroupVersionKind) (n ns : String) → Q (Call.get_object g n ns))
      → ((g : GroupVersionKind) (n ns : String) → Q (Call.patch g n ns))
      → Keeps P (delete_k8s_resource p obj)
  unfolding delete_k8s_resource
  delete_k8s_resource-Keeps obj qd qg qp = search (keeps_rules, stable, qd, qg, qp) depth 8

  random_letters-Keeps : Q Call.random → (n : ℕ) → Keeps P (random_letters p n)
  unfolding random_letters
  random_letters-Keeps q zero = search keeps_rules
  random_letters-Keeps q (suc n) = Keeps-bind _ _ (search (keeps_rules, stable)) (λ c.
      Keeps-bind _ _ (search keeps_rules)
        (λ l. Keeps-bind _ _ (random_letters-Keeps q n) (λ r. search keeps_rules)))

  pub create_resource_name_suffix-Keeps : Q Call.random → Keeps P (create_resource_name_suffix p)
  unfolding create_resource_name_suffix
  create_resource_name_suffix-Keeps q = random_letters-Keeps q 6

  pub get_server_preferred_version_for_group-Keeps :
      Q Call.server_groups → (grp : String) → Keeps P (get_server_preferred_version_for_group p grp)
  unfolding get_server_preferred_version_for_group
  get_server_preferred_version_for_group-Keeps q grp = search (keeps_rules, stable) depth 8

  pub get_versions_of_group-Keeps :
      Q Call.server_groups → (grp : String) → Keeps P (get_versions_of_group p grp)
  unfolding get_versions_of_group
  get_versions_of_group-Keeps q grp = search (keeps_rules, stable) depth 8

  pub check_is_openshift-Keeps :
      (gv : String) → Q (Call.server_resources gv) → Keeps P (check_is_openshift p gv)
  unfolding check_is_openshift
  check_is_openshift-Keeps gv q = search (keeps_rules, stable)
