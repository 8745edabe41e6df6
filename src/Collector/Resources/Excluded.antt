-- ===== src/Collector/Resources/Excluded.antt =====
-- What is collected of the kinds in `excludeResources` (tools/log-collector/log_collector.go).
use text.Mathlib.Text.{starts_with}
use tvk_plugins.Prelude.{
  String, Bool, true, false, ◌&&◌, ◌||◌, List, [], ◌∷◌, ◌++◌, ◌==◌, ◌≡◌, refl, inl, inr,
}
use tvk_plugins.Prelude.Tests.{Bool-cases}
use tvk_plugins.Kube.Calls.{ok}
use tvk_plugins.Action.{pure}
use tvk_plugins.Collector.Objects.{
  OwnerReference, KubeObject, metadata_of, get_name, ApiResource, LogCollector,
}
use tvk_plugins.Collector.Cluster.{Cluster}
use tvk_plugins.Collector.Exec.{State}
use tvk_plugins.Collector.Filters.{trilio_prefix}
use tvk_plugins.Collector.Resources.{
  once, is_tvk_owner, of_owners, is_olm_webhook, ocp_related, filter_resource_objects,
}

is_tvk_owner-Secret :
    (o : KubeObject) (ref : OwnerReference) → o.kind ≡ "Secret" → is_tvk_owner o ref ≡ false
unfolding is_tvk_owner
is_tvk_owner-Secret o ref secret = rw secret (
    none_of (starts_with ref.name trilio_prefix) (ref.kind == "ClusterServiceVersion")
      (ref.kind == "Subscription"))
  where
    none_of : (a b c : Bool) → a && b && false || c && a && false ≡ false
    none_of true true true = refl
    none_of true true false = refl
    none_of true false true = refl
    none_of true false false = refl
    none_of false b true = refl
    none_of false b false = refl

of_owners-Secret :
    (o : KubeObject) (refs : List OwnerReference) → o.kind ≡ "Secret" → of_owners o refs ≡ []
unfolding of_owners
of_owners-Secret o [] secret = refl
of_owners-Secret o (ref ∷ refs) secret =
    let rest = of_owners-Secret o refs secret in
    let not_ours : is_tvk_owner o ref ≡ false = is_tvk_owner-Secret o ref secret in
    rw (not_ours, rest) refl

once-and :
    (o : KubeObject) (a b c d : Bool) → once o (a && false && c) ++ once o (b && false && d) ≡ []
once-and o true true c d = refl
once-and o true false c d = refl
once-and o false true c d = refl
once-and o false false c d = refl

module _ (p : Cluster) (l : LogCollector) where
  unread :
      (path : String) (r : ApiResource) (s : State)
      → r.kind ≡ "Secret"
      → r.name ≡ "secrets"
      → filter_resource_objects p l path r s ≡ (ok [], s)
  unfolding filter_resource_objects pure
  unread path r s kind name = elim (Bool-cases r.namespaced) [
    | inl namespaced ↦ rw (kind, name, namespaced) refl
    | inr whole ↦ elim (Bool-cases l.clustered) [
      | inl clustered ↦ rw (kind, name, whole, clustered) refl
      | inr single ↦ rw (kind, name, whole, single) refl
    ]
  ]

  -- Whatever the scope, the resource of secrets is not read by the filter, which returns no object; and
  -- no secret without the labels that OLM puts on webhooks is taken for an object of the operator, whatever
  -- its owners are.
  pub secrets-left_out :
      (path : String) (r : ApiResource) (group_version : String) (o : KubeObject) (s : State)
      → r.kind ≡ "Secret"
      → r.name ≡ "secrets"
      → o.kind ≡ "Secret"
      → is_olm_webhook (metadata_of o).labels ≡ false
      → (filter_resource_objects p l path r s ≡ (ok [], s)) × (ocp_related group_version o ≡ [])
  unfolding ocp_related
  secrets-left_out path r group_version o s kind name secret webhook = (
    unread path r s kind name,
    rw (of_owners-Secret o (metadata_of o).owner_references secret, webhook, secret)
        (once-and (record o { kind = "Secret" }) (group_version == "config.openshift.io/v1")
          (group_version == "operator.openshift.io/v1") (get_name o == "cluster")
          (get_name o == "default")),
  )
