-- ===== src/Collector/Collect/Listed.antt =====
-- Which resources `getAPIResourceList` of tools/log-collector/log_collector.go returns.
use tvk_plugins.Prelude.{
  String, true, false, List, [], ◌∷◌, ◌++◌, ◌==◌, ◌≡◌, refl, sym, ◌∙◌, ap, inl, inr, eq_iff,
}
use tvk_plugins.Prelude.Tests.{if◌then◌else◌, Bool-cases}
use tvk_plugins.Prelude.Lists.{or_nil, lookup-insert-same, lookup-insert-apart}
use tvk_plugins.Collector.Objects.{ApiResource, ApiResourceList}
use tvk_plugins.Collector.Collect.{
  GroupMap, resources_of, append_resource, add_verbs, add_resources, add_lists,
}
use mathlib.Core.List.{append-nil, append_assoc}

-- The resource once for each of its verbs that is `list`.
abbrev pub copies : ApiResource → List String → List ApiResource
copies r [] = []
copies r (verb ∷ verbs) = if verb == "list" then r ∷ copies r verbs else copies r verbs

abbrev pub listable : List ApiResource → List ApiResource
listable [] = []
listable (r ∷ rs) = copies r r.verbs ++ listable rs

-- The listable resources of all lists of a group version.
abbrev pub listed : String → List ApiResourceList → List ApiResource
listed gv [] = []
listed gv (r ∷ rs) =
    (if r.group_version == gv then listable r.api_resources else []) ++ listed gv rs

module _ (gv other : String) (same : other == gv ≡ true) where
  append_resource-same :
      (r : ApiResource) (m : GroupMap)
      → resources_of gv (append_resource other r m) ≡ resources_of gv m ++ (r ∷ [])
  unfolding resources_of
  append_resource-same r m =
      ap or_nil (lookup-insert-same other gv (resources_of other m ++ (r ∷ [])) m same)
      ∙ (ap (λ x. resources_of x m ++ (r ∷ [])) ((eq_iff other gv).0 same))

  add_verbs-same :
      (r : ApiResource) (verbs : List String) (m : GroupMap)
      → resources_of gv (add_verbs other r verbs m) ≡ resources_of gv m ++ copies r verbs
  unfolding add_verbs
  add_verbs-same r [] m = sym (append-nil (resources_of gv m))
  add_verbs-same r (verb ∷ verbs) m = elim (Bool-cases (verb == "list")) [
    | inr skipped ↦ rw skipped (add_verbs-same r verbs m)
    | inl lists ↦ rw lists (
        add_verbs-same r verbs (append_resource other r m)
        ∙ ap (λ x. x ++ copies r verbs) (append_resource-same r m)
        ∙ append_assoc (resources_of gv m) (r ∷ []) (copies r verbs))
  ]

  add_resources-same :
      (rs : List ApiResource) (m : GroupMap)
      → resources_of gv (add_resources other rs m) ≡ resources_of gv m ++ listable rs
  unfolding add_resources
  add_resources-same [] m = sym (append-nil (resources_of gv m))
  add_resources-same (r ∷ rs) m =
      add_resources-same rs (add_verbs other r r.verbs m)
      ∙ ap (λ x. x ++ listable rs) (add_verbs-same r r.verbs m)
      ∙ append_assoc (resources_of gv m) (copies r r.verbs) (listable rs)

module _ (gv other : String) (apart : other == gv ≡ false) where
  append_resource-apart :
      (r : ApiResource) (m : GroupMap)
      → resources_of gv (append_resource other r m) ≡ resources_of gv m
  unfolding resources_of
  append_resource-apart r m =
      ap or_nil (lookup-insert-apart other gv (resources_of other m ++ (r ∷ [])) m apart)

  add_verbs-apart :
      (r : ApiResource) (verbs : List String) (m : GroupMap)
      → resources_of gv (add_verbs other r verbs m) ≡ resources_of gv m
  unfolding add_verbs
  add_verbs-apart r [] m = refl
  add_verbs-apart r (verb ∷ verbs) m = elim (Bool-cases (verb == "list")) [
    | inr skipped ↦ rw skipped (add_verbs-apart r verbs m)
    | inl lists ↦
        rw lists (add_verbs-apart r verbs (append_resource other r m) ∙ append_resource-apart r m)
  ]

  add_resources-apart :
      (rs : List ApiResource) (m : GroupMap)
      → resources_of gv (add_resources other rs m) ≡ resources_of gv m
  unfolding add_resources
  add_resources-apart [] m = refl
  add_resources-apart (r ∷ rs) m =
      add_resources-apart rs (add_verbs other r r.verbs m) ∙ add_verbs-apart r r.verbs m

add_lists_lem :
    (gv : String) (rs : List ApiResourceList) (m : GroupMap)
    → resources_of gv (add_lists rs m) ≡ resources_of gv m ++ listed gv rs
unfolding add_lists
add_lists_lem gv [] m = sym (append-nil (resources_of gv m))
add_lists_lem gv (r ∷ rs) m =
    let later = add_lists_lem gv rs (add_resources r.group_version r.api_resources m) in
    elim (Bool-cases (r.group_version == gv)) [
      | inl same ↦ rw same (
          later
          ∙ ap (λ x. x ++ listed gv rs)
              (add_resources-same gv r.group_version same r.api_resources m)
          ∙ append_assoc (resources_of gv m) (listable r.api_resources) (listed gv rs))
      | inr apart ↦ rw apart (
          later
          ∙ ap (λ x. x ++ listed gv rs)
              (add_resources-apart gv r.group_version apart r.api_resources m))
    ]

-- For every group version, the map has the resources of its lists, in their order, each once for each
-- of its verbs that is `list`, and so none that cannot be listed.
pub add_lists-listed :
    (gv : String) (rs : List ApiResourceList) → resources_of gv (add_lists rs []) ≡ listed gv rs
unfolding resources_of
add_lists-listed gv rs = add_lists_lem gv rs []
