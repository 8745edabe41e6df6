-- ===== src/Collector/Resources.antt =====
-- The objects of a resource, and those that are collected of it: `getResourceObjects`,
-- `filterResourceObjects` and `getOcpRelatedResources` of tools/log-collector/log_collector.go.
pub mod Keeps
pub mod Reads
pub mod Excluded
use Prim.Native.String.{◌++◌}
use text.Mathlib.Text.{starts_with}
use tvk_plugins.Prelude.{
  String, Bool, true, false, not, ◌&&◌, ◌||◌, none, some, List, [], ◌∷◌, ◌==◌,
}
use tvk_plugins.Prelude.Tests.{if◌then◌else◌}
use tvk_plugins.Prelude.Lists.{lookup}
use tvk_plugins.Prelude.Text.{contains_text}
use tvk_plugins.Kube.Objects.{Labels}
use tvk_plugins.Kube.Calls.{failed, Result, ok, err}
use tvk_plugins.Collector.Objects.{
  OwnerReference, KubeObject, metadata_of, get_name, nested_string, ApiResource, LogCollector,
}
use tvk_plugins.Collector.Calls.{Call}
use tvk_plugins.Collector.Cluster.{Cluster}
use tvk_plugins.Collector.Exec.{
  State, Exec, pure, raise, lift, gets, modify, ask, try, ◌>>=◌, ◌>>◌, on_result,
}
use tvk_plugins.Collector.Labels.{filter_tvk_resources_by_label}
use tvk_plugins.Collector.Filters.{
  has, trilio_prefix, non_labeled_resources, exclude_resources, filter_tvk_csv,
  filter_tvk_snapshot_and_csi_crd, filter_input_ns,
}
use mathlib.Core.List

abbrev pub namespaced_path : String → String → String → String
namespaced_path resource_path ns name = resource_path ++ "/namespaces/" ++ ns ++ "/" ++ name

-- The objects of one GET; its error is only logged.
abbrev pub items : Result (List KubeObject) → List KubeObject
items (ok objects) = objects
items (err e) = []

-- Once for each owner reference that names the operator's CSV or, of an install plan, its
-- subscription.
unfoldable pub is_tvk_owner : KubeObject → OwnerReference → Bool
is_tvk_owner object ref =
    starts_with ref.name trilio_prefix
      && ref.kind == "ClusterServiceVersion"
      && not (has object.kind exclude_resources)
    || ref.kind == "Subscription"
      && starts_with ref.name trilio_prefix
      && object.kind == "InstallPlan"

unfoldable pub of_owners : KubeObject → List OwnerReference → List KubeObject
unfolding is_tvk_owner
of_owners object [] = []
of_owners object (ref ∷ refs) =
    let rest = of_owners object refs in if is_tvk_owner object ref then object ∷ rest else rest

-- The labels that OLM puts on the webhooks of a CSV.
unfoldable pub is_olm_webhook : Labels → Bool
unfolding lookup contains_text
is_olm_webhook labels = elim (lookup "olm.owner.kind" labels) [
  | none ↦ false
  | some owner_kind ↦ owner_kind == "ClusterServiceVersion" && elim (lookup "olm.owner" labels) [
    | none ↦ false
    | some owner ↦
        starts_with owner trilio_prefix
        && elim (lookup "olm.webhook-description-generate-name" labels) [
          | none ↦ false
          | some owner_webhook ↦ contains_text owner_webhook "trilio.io"
        ]
  ]
]

abbrev pub once : KubeObject → Bool → List KubeObject
once object b = if b then object ∷ [] else []

-- Of a subscription; an error ends the loop. The second result says that the error is lost: where
-- `name` is no text, the code returns the error of `startingCSV`, which is nil.
pub data Subscription : Type 0 where
  no_csv : Subscription
  no_name : Subscription
  is_ours : Bool → Subscription

unfoldable pub read_subscription : KubeObject → Subscription
read_subscription object =
    if object.kind == "Subscription"
    then elim (nested_string object.starting_csv) [
      | err e ↦ no_csv
      | ok starting_csv ↦ elim (nested_string object.subscription_name) [
        | err e ↦ no_name
        | ok name ↦
            is_ours (starts_with starting_csv trilio_prefix && starts_with name trilio_prefix)
      ]
    ]
    else is_ours false

-- What the body of the loop appends after the subscription.
unfoldable pub ocp_related : String → KubeObject → List KubeObject
unfolding of_owners is_olm_webhook
ocp_related group_version object =
    List.◌++◌ (of_owners object (metadata_of object).owner_references) (
      List.◌++◌ (once object (is_olm_webhook (metadata_of object).labels)) (
        List.◌++◌
          (once object (
            group_version == "config.openshift.io/v1"
            && object.kind == "Ingress"
            && get_name object == "cluster"))
          (once object (
            group_version == "operator.openshift.io/v1"
            && object.kind == "IngressController"
            && get_name object == "default"))))

-- The loop of `getOcpRelatedResources`.
unfoldable pub ocp_objects : String → List KubeObject → Result (List KubeObject)
unfolding read_subscription ocp_related
ocp_objects group_version [] = ok []
ocp_objects group_version (object ∷ objects) =
    let rest = ocp_objects group_version objects in
    elim (read_subscription object) [
      | no_csv ↦ err (failed "accessor error: startingCSV is not a string")
      | no_name ↦ ok []
      | is_ours ours ↦ elim rest [
        | err e ↦ err e
        | ok kept ↦
            ok (List.◌++◌ (once object ours) (List.◌++◌ (ocp_related group_version object) kept))
      ]
    ]

module _ (p : Cluster) where
  unfoldable pub get_list : String → Exec (List KubeObject)
  get_list path = do r ← try (ask (Call.get_list path) (λ h. p.get_list h path)); pure (items r)

  -- The loop over the namespaces.
  unfoldable pub get_in_namespaces : String → String → List String → Exec (List KubeObject)
  unfolding get_list
  get_in_namespaces resource_path name [] = pure []
  get_in_namespaces resource_path name (ns ∷ namespaces) = do
    here ← get_list (namespaced_path resource_path ns name)
    others ← get_in_namespaces resource_path name namespaces
    pure (List.◌++◌ here others)

  unfoldable pub get_resource_objects : LogCollector → String → ApiResource → Exec (List KubeObject)
  unfolding get_in_namespaces get_list
  get_resource_objects l resource_path resource =
      if resource.namespaced && not l.clustered
      then (do
        namespaces ← gets State.namespaces
        get_in_namespaces resource_path resource.name namespaces)
      else get_list (resource_path ++ "/" ++ resource.name)

  unfoldable pub filter_resource_objects :
      LogCollector → String → ApiResource → Exec (List KubeObject)
  unfolding get_resource_objects filter_tvk_snapshot_and_csi_crd filter_input_ns filter_tvk_csv
      filter_tvk_resources_by_label
  filter_resource_objects l resource_path resource =
      if has resource.kind non_labeled_resources
      then get_resource_objects l resource_path resource
      else (if resource.name == "customresourcedefinitions"
          then (do
            objects ← get_resource_objects l resource_path resource
            lift (filter_tvk_snapshot_and_csi_crd objects))
          else (if resource.name == "namespaces"
              then (do
                objects ← get_resource_objects l resource_path resource
                namespaces ← gets State.namespaces
                pure (filter_input_ns l.clustered namespaces objects))
              else (if resource.name == "clusterserviceversions"
                  then (do
                    objects ← get_resource_objects l resource_path resource
                    pure (filter_tvk_csv objects))
                  else (if (not (has resource.kind non_labeled_resources) && resource.namespaced
                          || l.clustered && not resource.namespaced)
                        && not (has resource.kind exclude_resources)
                      then (do
                        objects ← get_resource_objects l resource_path resource
                        lift (filter_tvk_resources_by_label p l objects))
                      else pure []))))

  -- The default ingress controller lives in a namespace that is added for the rest of the run.
  unfoldable pub add_ocp_config_ns : ApiResource → String → Exec (Unit {0})
  add_ocp_config_ns resource group_version =
      if resource.kind == "IngressController" && group_version == "operator.openshift.io/v1"
      then modify (λ s. record s {
        namespaces = List.◌++◌ s.namespaces ("openshift-ingress-operator" ∷ []);
      })
      else pure tt

  unfoldable pub get_ocp_related_resources :
      LogCollector → String → ApiResource → String → Exec (List KubeObject)
  unfolding add_ocp_config_ns get_resource_objects ocp_objects
  get_ocp_related_resources l resource_path resource group_version = do
    add_ocp_config_ns resource group_version
    objects ← get_resource_objects l resource_path resource
    lift (ocp_objects group_version objects)
