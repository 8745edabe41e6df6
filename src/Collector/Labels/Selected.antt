-- ===== src/Collector/Labels/Selected.antt =====
-- Which objects the selection by labels keeps (tools/log-collector/helper.go).
use tvk_plugins.Prelude.{
  String, Bool, true, false, ◌||◌, some, List, [], ◌∷◌, ◌≡◌, refl, subst, ◌↔◌, ◌⊎◌, inl, inr, arith,
  eq_iff,
}
use tvk_plugins.Prelude.Tests.{if◌then◌else◌, Bool-cases, Option-cases}
use tvk_plugins.Prelude.Lists.{All, Any, Filtered, no_more, kept, dropped, lookup}
use tvk_plugins.Kube.Objects.{Labels}
use tvk_plugins.Kube.Calls.{Result, ok, err, Result-cases}
use tvk_plugins.Collector.Objects.{
  KubeObject, metadata_of, LabelSelector, LabelSelectorRequirement, LogCollector,
}
use tvk_plugins.Collector.Cluster.{Cluster}
use tvk_plugins.Collector.Labels.{
  check_labels, check_label_exist, match_labels, match_expression_operator, match_expressions,
  match_any_selector, match_label_selectors, is_labelled, keep_if, filter_tvk_resources_by_label,
}

abbrev pub Carries : Labels → String × String → Type 0
Carries labels l = lookup l.0 labels ≡ some l.1

abbrev pub part_of : String
part_of = "app.kubernetes.io/part-of"

check_label_exist_lem :
    (key value : String) (labels : Labels)
    → (check_label_exist ((key, value) ∷ []) labels ≡ true) ↔ Carries labels (key, value)
unfolding check_label_exist check_labels
check_label_exist_lem key value labels = elim (Option-cases (lookup key labels)) [
  | inl missing ↦ (λ h. ground (arith, h, missing), λ h. ground (arith, h, missing))
  | inr (v, found) ↦
      (λ h. ground (arith, h, found, eq_iff v value), λ h. ground (arith, h, found, eq_iff v value))
]

match_labels_lem :
    (labels wanted : Labels) → (match_labels labels wanted ≡ true) ↔ All (Carries labels) wanted
unfolding match_labels
match_labels_lem labels [] = (λ h. tt, λ h. refl)
match_labels_lem labels (l ∷ ls) =
    let rest = match_labels_lem labels ls in
    elim (Option-cases (lookup l.0 labels)) [
      | inl missing ↦ (λ h. ground (arith, h, missing), λ h. ground (arith, h, missing))
      | inr (v, found) ↦ (
        λ h. ground (arith, h, found, rest, eq_iff v l.1),
        λ h. ground (arith, h, found, rest, eq_iff v l.1),
      )
    ]

module _ (p : Cluster) where
  -- A requirement that the library makes, and that the labels meet.
  abbrev pub Meets : Labels → LabelSelectorRequirement → Type 0
  Meets labels e =
      (matches : Labels → Bool) × (p.new_requirement e.key (match_expression_operator e.operator)
          e.values
        ≡ ok matches)
      × (matches labels ≡ true)

  abbrev pub Matches : Labels → LabelSelector → Type 0
  Matches labels s = All (Carries labels) s.match_labels × All (Meets labels) s.match_expressions

  match_expressions_lem :
      (labels : Labels) (es : List LabelSelectorRequirement) (b : Bool)
      → match_expressions p labels es ≡ ok b
      → (b ≡ true) ↔ All (Meets labels) es
  unfolding match_expressions
  match_expressions_lem labels [] b h = (λ e. tt, λ e. cc)
  match_expressions_lem labels (e ∷ es) b h =
      elim (Result-cases
        (p.new_requirement e.key (match_expression_operator e.operator) e.values)) [
          | inl (matches, made) ↦ elim (Bool-cases (matches labels)) [
            | inl met ↦
                let rest = match_expressions_lem labels es b (ground (arith, h, made, met)) in
                (λ e. ((matches, made, met), rest.0 e), λ a. rest.1 a.1)
            | inr unmet ↦ let no : b ≡ false = ground (arith, h, made, unmet) in (λ e. cc, λ a. cc)
          ]
          | inr (e, refused) ↦ (λ e. ground (arith, h, refused), λ a. ground (arith, h, refused))
        ]

  match_any_selector_lem :
      (labels : Labels) (ss : List LabelSelector) (b : Bool)
      → match_any_selector p labels ss ≡ ok b
      → (b ≡ true) ↔ Any (Matches labels) ss
  unfolding match_any_selector
  match_any_selector_lem labels [] b h = (λ e. cc, λ a. elim a [ ])
  match_any_selector_lem labels (s ∷ ss) b h =
      elim (Bool-cases (match_labels labels s.match_labels)) [
        | inr other ↦
            let rest = match_any_selector_lem labels ss b (ground (arith, h, other)) in
            (
              λ e. inr (rest.0 e),
              λ a. elim a [
                | inl m ↦ ground (arith, other, (match_labels_lem labels s.match_labels).1 m.0)
                | inr later ↦ rest.1 later
              ],
            )
        | inl same ↦ elim (Result-cases (match_expressions p labels s.match_expressions)) [
          | inr (e, panics) ↦
              (λ e. ground (arith, h, same, panics), λ a. ground (arith, h, same, panics))
          | inl (met, made) ↦
              let expressions = match_expressions_lem labels s.match_expressions met made in
              elim (Bool-cases met) [
                | inl holds ↦ (
                  λ e. inl ((match_labels_lem labels s.match_labels).0 same, expressions.0 holds),
                  λ a. ground (arith, h, same, made, holds),
                )
                | inr fails ↦
                    let rest =
                      match_any_selector_lem labels ss b (ground (arith, h, same, made, fails)) in
                    (
                      λ e. inr (rest.0 e),
                      λ a. elim a [
                        | inl m ↦ absurd (ground (arith, fails, expressions.1 m.1))
                        | inr later ↦ rest.1 later
                      ],
                    )
              ]
        ]
      ]

  -- The labels of an object that the selection keeps: those of the operator or of its product, or
  -- those of a selector of the options.
  abbrev pub Selected : LogCollector → Labels → Type 0
  Selected l [] = ⊥
  Selected l (x ∷ xs) =
      Carries (x ∷ xs) (part_of, "k8s-triliovault")
      ⊎ Carries (x ∷ xs) (part_of, "k8s-triliovault-operator")
      ⊎ Any (Matches (x ∷ xs)) l.label_selectors

  -- The test with the selectors of the options.
  abbrev by_selectors : Labels → List LabelSelector → Result Bool
  by_selectors labels [] = ok false
  by_selectors labels (s ∷ ss) = match_label_selectors p labels (s ∷ ss)

  by_selectors_lem :
      (labels : Labels) (ss : List LabelSelector) (b : Bool)
      → by_selectors labels ss ≡ ok b
      → (b ≡ true) ↔ Any (Matches labels) ss
  unfolding match_label_selectors
  by_selectors_lem labels [] b h = (λ e. cc, λ a. elim a [ ])
  by_selectors_lem labels (s ∷ ss) b h = match_any_selector_lem labels (s ∷ ss) b h

  -- The last test counts where the first two fail.
  labelled_lem :
      {A B C : Type 0} (first second : Bool) (last : Result Bool) (b : Bool)
      → (if first || second then ok true else last) ≡ ok b
      → (first ≡ true) ↔ A
      → (second ≡ true) ↔ B
      → (last ≡ ok b → (b ≡ true) ↔ C)
      → (b ≡ true) ↔ (A ⊎ B ⊎ C)
  labelled_lem true second last b h fa fb fc = (λ e. inl (fa.0 refl), λ a. cc)
  labelled_lem false true last b h fa fb fc = (λ e. inr (inl (fb.0 refl)), λ a. cc)
  labelled_lem false false last b h fa fb fc = (
    λ e. inr (inr ((fc h).0 e)),
    λ a. elim a [
      | inl x ↦ absurd (ground (arith, fa.1 x))
      | inr y ↦ elim y [ inl z ↦ absurd (ground (arith, fb.1 z)) | inr c ↦ (fc h).1 c ]
    ],
  )

  pub is_labelled-Selected :
      (l : LogCollector) (labels : Labels) (b : Bool)
      → is_labelled p l labels ≡ ok b
      → (b ≡ true) ↔ Selected l labels
  unfolding is_labelled
  is_labelled-Selected l [] b h = (λ e. cc, λ a. elim a [ ])
  is_labelled-Selected l (x ∷ xs) b h =
      labelled_lem _ _ (by_selectors (x ∷ xs) l.label_selectors) b h
        (check_label_exist_lem part_of "k8s-triliovault" (x ∷ xs))
        (check_label_exist_lem part_of "k8s-triliovault-operator" (x ∷ xs))
        (by_selectors_lem (x ∷ xs) l.label_selectors b)

  abbrev pub SelectedObject : LogCollector → KubeObject → Type 0
  SelectedObject l o = Selected l (metadata_of o).labels

  keep_if_lem :
      (l : LogCollector) (o : KubeObject) (objects : List KubeObject) (r : Result Bool)
      (rest : Result (List KubeObject)) (result : List KubeObject)
      → ((b : Bool) → r ≡ ok b → (b ≡ true) ↔ SelectedObject l o)
      → ((ks : List KubeObject) → rest ≡ ok ks → Filtered (SelectedObject l) objects ks)
      → keep_if p o r rest ≡ ok result
      → Filtered (SelectedObject l) (o ∷ objects) result
  unfolding keep_if
  keep_if_lem l o objects (err e) rest result test later h = absurd (ground arith)
  keep_if_lem l o objects (ok false) rest result test later h =
      dropped (λ x. absurd (ground (arith, (test false refl).1 x))) (later result h)
  keep_if_lem l o objects (ok true) (err e) result test later h = absurd (ground arith)
  keep_if_lem l o objects (ok true) (ok ks) result test later h =
      let same : o ∷ ks ≡ result = cc in
      subst (Filtered (SelectedObject l) (o ∷ objects)) same
        (kept ((test true refl).0 refl) (later ks refl))

  -- Where no requirement of a selector is refused by the library: exactly the objects are kept, in their
  -- order, that have labels, and of these the label of the operator or of its product, or all the labels
  -- and requirements of one of the selectors of the options.
  pub filter-Selected :
      (l : LogCollector) (objects result : List KubeObject)
      → filter_tvk_resources_by_label p l objects ≡ ok result
      → Filtered (SelectedObject l) objects result
  unfolding filter_tvk_resources_by_label
  filter-Selected l [] result h = subst (Filtered (SelectedObject l) []) (ground (arith, h)) no_more
  filter-Selected l (o ∷ objects) result h =
      keep_if_lem l o objects _ _ result (is_labelled-Selected l (metadata_of o).labels)
        (filter-Selected l objects) h
