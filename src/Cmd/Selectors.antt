-- ===== src/Cmd/Selectors.antt =====
-- `parseNodeSelectorLabels`: which texts are node selectors, and what they select.
use tvk_plugins.Prelude.{
  String, ◌≡◌, refl, ap, ◌∙◌, ◌↔◌, Option, none, some, List, [], ◌∷◌, ◌==◌, arith,
}
use tvk_plugins.Prelude.Tests.{if◌then◌else◌}
use tvk_plugins.Prelude.Lists.{All, lookup, insert, lookup-insert}
use tvk_plugins.Kube.Objects.{Labels}
use tvk_plugins.Prelude.Text.{split}
use tvk_plugins.Cmd.Flags.{Outcome, done, continue, ◌>>=◌}
use tvk_plugins.Cmd.Inversion.{bind-done}
use tvk_plugins.Cmd.Values.{add_label, add_labels, parse_node_selector_labels}

-- Two parts, with no further `=` between or behind them.
abbrev pub IsPair : List String → Type 0
IsPair (key ∷ value ∷ []) = Unit
IsPair _ = ⊥

abbrev split_all : List String → List (List String)
unfolding split
split_all [] = []
split_all (kv ∷ kvs) = split kv b'=' ∷ split_all kvs

-- The pairs of a node selector, each cut at `=`.
abbrev pub pairs : String → List (List String)
unfolding split
pairs labels = split_all (split labels b',')

-- The value that a pair gives to a key.
abbrev value_in : String → List String → Option String
value_in k (key ∷ value ∷ []) = if key == k then some value else none
value_in k _ = none

abbrev first_some : Option String → Option String → Option String
first_some (some v) kept = some v
first_some none kept = kept

-- The value of the last pair with that key, or else the one given.
abbrev pub last_value : String → List (List String) → Option String → Option String
last_value k [] kept = kept
last_value k (kv ∷ kvs) kept = last_value k kvs (first_some (value_in k kv) kept)

lookup-add_label :
    (k kv : String) (parts : List String) (m m' : Labels)
    → add_label kv parts m ≡ done m'
    → lookup k m' ≡ first_some (value_in k parts) (lookup k m)
unfolding add_label
lookup-add_label k kv [] m m' e = cc
lookup-add_label k kv (a ∷ []) m m' e = cc
lookup-add_label k kv (a ∷ b ∷ []) m m' e =
    let f : insert a b m ≡ m' = cc in let g = lookup-insert a k b m in ground arith
lookup-add_label k kv (a ∷ b ∷ c ∷ d) m m' e = cc

lookup-add_labels :
    (k : String) (kvs : List String) (m m' : Labels)
    → add_labels kvs m ≡ done m'
    → lookup k m' ≡ last_value k (split_all kvs) (lookup k m)
unfolding add_labels
lookup-add_labels k [] m m' e = let f : m ≡ m' = cc in cc
lookup-add_labels k (kv ∷ kvs) m m' e =
    let (more, e1, e2) = bind-done _ _ e in
    lookup-add_labels k kvs more m' e2
    ∙ ap (last_value k (split_all kvs)) (lookup-add_label k kv (split kv b'=') m more e1)

-- In the labels of an accepted node selector every key has the value of its last pair.
pub lookup-parse_node_selector_labels :
    (k labels : String) (m : Labels)
    → parse_node_selector_labels labels ≡ done m
    → lookup k m ≡ last_value k (pairs labels) none
unfolding parse_node_selector_labels lookup
lookup-parse_node_selector_labels k labels m e = lookup-add_labels k (split labels b',') [] m e

add_label-done_iff :
    (kv : String) (parts : List String) (m : Labels)
    → (IsPair parts → (m' : Labels) × (add_label kv parts m ≡ done m'))
      × ((m' : Labels) → add_label kv parts m ≡ done m' → IsPair parts)
unfolding add_label
add_label-done_iff kv [] m = (λ h. absurd h, λ m' e. absurd (ground arith))
add_label-done_iff kv (a ∷ []) m = (λ h. absurd h, λ m' e. absurd (ground arith))
add_label-done_iff kv (a ∷ b ∷ []) m = (λ h. (insert a b m, refl), λ m' e. tt)
add_label-done_iff kv (a ∷ b ∷ c ∷ d) m = (λ h. absurd h, λ m' e. absurd (ground arith))

accept :
    {A B : Type 0} (m : Outcome A) (k : A → Outcome B) (a : A) (b : B)
    → m ≡ done a
    → k a ≡ done b
    → (m >>= k) ≡ done b
unfolding ◌>>=◌ continue
accept m k a b e h = ap (λ x. continue x k) e ∙ h

add_labels-accepts :
    (kvs : List String) (m : Labels)
    → All IsPair (split_all kvs)
    → (m' : Labels) × (add_labels kvs m ≡ done m')
unfolding add_labels
add_labels-accepts [] m h = (m, refl)
add_labels-accepts (kv ∷ kvs) m (h, hs) =
    let (more, e) = (add_label-done_iff kv (split kv b'=') m).0 h in
    let (m', e') = add_labels-accepts kvs more hs in (m', accept _ _ more m' e e')

add_labels-IsPair :
    (kvs : List String) (m m' : Labels) → add_labels kvs m ≡ done m' → All IsPair (split_all kvs)
unfolding add_labels
add_labels-IsPair [] m m' e = tt
add_labels-IsPair (kv ∷ kvs) m m' e =
    let (more, e1, e2) = bind-done _ _ e in
    ((add_label-done_iff kv (split kv b'=') m).1 more e1, add_labels-IsPair kvs more m' e2)

-- A text is accepted as a node selector exactly if each of its parts between commas has exactly
-- one `=`.
pub parse-done_iff :
    (labels : String)
    → ((m : Labels) × (parse_node_selector_labels labels ≡ done m)) ↔ All IsPair (pairs labels)
unfolding parse_node_selector_labels
parse-done_iff labels = (
  λ (m, e). add_labels-IsPair (split labels b',') [] m e,
  λ h. add_labels-accepts (split labels b',') [] h,
)
