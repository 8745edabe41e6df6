-- ===== src/Collector/Labels.antt =====
-- Selection by labels: `checkLabelExist`, `MatchLabelSelectors`, `MatchLabels`, `MatchExpressions` and
-- `filterTvkResourcesByLabel` of tools/log-collector/helper.go. The range over a map is the list.
pub mod Selected
use tvk_plugins.Prelude.{
  String, Bool, true, false, not, ◌&&◌, ◌||◌, Option, none, some, List, [], ◌∷◌, ◌==◌,
}
use tvk_plugins.Prelude.Tests.{if◌then◌else◌}
use tvk_plugins.Prelude.Lists.{lookup}
use tvk_plugins.Kube.Objects.{Labels}
use tvk_plugins.Kube.Calls.{Result, ok, err}
use tvk_plugins.Collector.Objects.{
  KubeObject, Metadata, metadata_of, LabelSelector, LabelSelectorRequirement, LogCollector,
}
use tvk_plugins.Collector.Cluster.{Cluster}

abbrev pub k8s_trilio_vault_label : Labels
k8s_trilio_vault_label = ("app.kubernetes.io/part-of", "k8s-triliovault") ∷ []

abbrev pub k8s_trilio_vault_op_label : Labels
k8s_trilio_vault_op_label = ("app.kubernetes.io/part-of", "k8s-triliovault-operator") ∷ []

-- The loop of `checkLabelExist`, from the value of `exist` so far.
unfoldable pub check_labels : Labels → Labels → Bool → Bool
unfolding lookup
check_labels [] to_check_in_label exist = exist
check_labels (l ∷ ls) to_check_in_label exist =
    check_labels ls to_check_in_label
      (elim (lookup l.0 to_check_in_label) [ some v ↦ v == l.1 | none ↦ exist ])

unfoldable pub check_label_exist : Labels → Labels → Bool
unfolding check_labels
check_label_exist given_label to_check_in_label = check_labels given_label to_check_in_label false

unfoldable pub match_labels : Labels → Labels → Bool
unfolding lookup
match_labels obj_labels [] = true
match_labels obj_labels (l ∷ ls) =
    let rest = match_labels obj_labels ls in
    elim (lookup l.0 obj_labels) [ none ↦ false | some v ↦ v == l.1 && rest ]

-- `matchExpressionOperator[op]`, with the zero value for a missing key
unfoldable pub match_expression_operator : String → String
match_expression_operator op =
    if op == "In"
    then "in"
    else (if op == "NotIn"
        then "notin"
        else (if op == "Exists" then "exists" else (if op == "DoesNotExist" then "!" else "")))

module _ (p : Cluster) where
  -- An error of `NewRequirement` is logged, and the nil requirement that comes with it is used: the
  -- error here is that panic.
  unfoldable pub match_expressions : Labels → List LabelSelectorRequirement → Result Bool
  unfolding match_expression_operator
  match_expressions obj_labels [] = ok true
  match_expressions obj_labels (expr ∷ exprs) =
      let rest = match_expressions obj_labels exprs in
      elim (p.new_requirement expr.key (match_expression_operator expr.operator) expr.values) [
        | err e ↦ err e
        | ok matches ↦ if matches obj_labels then rest else ok false
      ]

  -- The loop of `MatchLabelSelectors`.
  unfoldable pub match_any_selector : Labels → List LabelSelector → Result Bool
  unfolding match_labels match_expressions
  match_any_selector obj_labels [] = ok false
  match_any_selector obj_labels (ls ∷ selectors) =
      let rest = match_any_selector obj_labels selectors in
      if match_labels obj_labels ls.match_labels
      then elim (match_expressions obj_labels ls.match_expressions) [
        | err e ↦ err e
        | ok matched ↦ if matched then ok true else rest
      ]
      else rest

  unfoldable pub match_label_selectors : Labels → List LabelSelector → Result Bool
  unfolding match_any_selector
  match_label_selectors obj_labels [] = ok true
  match_label_selectors obj_labels (ls ∷ selectors) = match_any_selector obj_labels (ls ∷ selectors)

  -- The test of `filterTvkResourcesByLabel` on one object.
  unfoldable pub is_labelled : LogCollector → Labels → Result Bool
  unfolding check_label_exist match_label_selectors
  is_labelled l [] = ok false
  is_labelled l (x ∷ xs) =
      if check_label_exist k8s_trilio_vault_label (x ∷ xs)
        || check_label_exist k8s_trilio_vault_op_label (x ∷ xs)
      then ok true
      else elim l.label_selectors [
        | [] ↦ ok false
        | s ∷ ss ↦ match_label_selectors (x ∷ xs) (s ∷ ss)
      ]

  unfoldable pub keep_if :
      KubeObject → Result Bool → Result (List KubeObject) → Result (List KubeObject)
  keep_if o (err e) rest = err e
  keep_if o (ok false) rest = rest
  keep_if o (ok true) (ok objects) = ok (o ∷ objects)
  keep_if o (ok true) (err e) = err e

  unfoldable pub filter_tvk_resources_by_label :
      LogCollector → List KubeObject → Result (List KubeObject)
  unfolding is_labelled keep_if
  filter_tvk_resources_by_label l [] = ok []
  filter_tvk_resources_by_label l (o ∷ objects) =
      keep_if o (is_labelled l (metadata_of o).labels) (filter_tvk_resources_by_label l objects)
