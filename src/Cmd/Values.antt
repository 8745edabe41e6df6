-- ===== src/Cmd/Values.antt =====
-- cmd/preflight/cmd/helper.go: resource lists, quantities and node selectors given as text. A map of
-- resources is not nil here, as `setResReqDefaultValues` leaves it.

use tvk_plugins.Prelude.{String, none, some, List, [], ◌∷◌, ◌==◌}
use tvk_plugins.Prelude.Tests.{if◌then◌else◌}
use tvk_plugins.Prelude.Lists.{lookup, insert}
use tvk_plugins.Kube.Objects.{Quantity, Labels, ResourceList, ResourceRequirements}
use tvk_plugins.Prelude.Text.{split, trim}
use tvk_plugins.Cmd.Flags.{
  Flags, library, label_syntax, resource_syntax, panicked, Outcome, done, refused, ◌>>=◌,
  from_result, Libraries, pvc_storage_request_flag, node_selector_flag,
}

-- The loop of `populateResourceList`: the list so far and the statements left.
module _ (lib : Libraries) where
  unfoldable resource_value : String → Outcome Quantity
  unfolding from_result
  resource_value s = from_result library (lib.parse_quantity (trim s))

  unfoldable add_resource : String → List String → ResourceList → Outcome ResourceList
  unfolding resource_value insert
  add_resource statement (name ∷ value ∷ []) rs = do
    q ← resource_value value
    done (insert (trim name) q rs)
  add_resource statement _ rs = refused (resource_syntax statement)

  unfoldable populate : List String → ResourceList → Outcome ResourceList
  unfolding add_resource
  populate [] rs = done rs
  populate (s ∷ ss) rs = do more ← add_resource s (split s b'=') rs; populate ss more

  unfoldable pub populate_resource_list : String → Outcome ResourceList
  unfolding populate split
  populate_resource_list s = populate (split s b',') []

  -- `rl.Name(name, …)`
  unfoldable pub quantity_of : String → ResourceList → Quantity
  unfolding lookup
  quantity_of name rl = elim (lookup name rl) [ none ↦ lib.zero | some q ↦ q ]

  unfoldable pub take_resource : String → ResourceList → ResourceList → ResourceList
  unfolding quantity_of insert
  take_resource name given rl =
      if lib.is_zero (quantity_of name given) then rl else insert name (quantity_of name given) rl

  -- One of the two flags `--requests` and `--limits`.
  unfoldable pub update_resources : String → ResourceList → Outcome ResourceList
  unfolding populate_resource_list take_resource
  update_resources text rl = if text == "" then done rl else do
    given ← populate_resource_list text
    done (take_resource "memory" given (take_resource "cpu" given rl))

  unfoldable pub update_res_req_from_cli :
      Flags → ResourceRequirements → Outcome ResourceRequirements
  unfolding update_resources
  update_res_req_from_cli f r = do
    requests ← update_resources f.pod_requests r.requests
    limits ← update_resources f.pod_limits r.limits
    done (record { requests = requests; limits = limits })

  unfoldable pub must_parse : String → Outcome Quantity
  unfolding from_result
  must_parse s = from_result panicked (lib.parse_quantity s)

  unfoldable pub update_pvc_storage_request : Flags → Quantity → Outcome Quantity
  unfolding must_parse
  update_pvc_storage_request f q =
      if f.changed pvc_storage_request_flag
      then must_parse f.pvc_storage_request
      else (if lib.is_zero q then must_parse "1Gi" else done q)

  unfoldable pub set_res_req_default_values : Outcome ResourceRequirements
  unfolding must_parse
  set_res_req_default_values = do
    request_cpu ← must_parse "250m"
    request_memory ← must_parse "64Mi"
    limit_cpu ← must_parse "500m"
    limit_memory ← must_parse "128Mi"
    done (record {
      requests = ("cpu", request_cpu) ∷ ("memory", request_memory) ∷ [];
      limits = ("cpu", limit_cpu) ∷ ("memory", limit_memory) ∷ [];
    })

unfoldable pub add_label : String → List String → Labels → Outcome Labels
unfolding insert
add_label kv (key ∷ value ∷ []) m = done (insert key value m)
add_label kv _ m = refused (label_syntax kv)

-- The loop of `parseNodeSelectorLabels`: the map so far and the pairs left.
unfoldable pub add_labels : List String → Labels → Outcome Labels
unfolding add_label split
add_labels [] m = done m
add_labels (kv ∷ kvs) m = do more ← add_label kv (split kv b'=') m; add_labels kvs more

unfoldable pub parse_node_selector_labels : String → Outcome Labels
unfolding add_labels split
parse_node_selector_labels labels = add_labels (split labels b',') []

unfoldable pub update_node_selector_labels_from_cli : Flags → Labels → Outcome Labels
unfolding parse_node_selector_labels
update_node_selector_labels_from_cli f kept =
    if f.changed node_selector_flag then parse_node_selector_labels f.node_selector else done kept
