-- ===== src/Collector/Inputs/Scope.antt =====
-- Which namespaces and which output directory `preRun` leaves (cmd/log-collector/cmd/root.go).
use Prim.Native.String.{◌++◌}
use tvk_plugins.Prelude.{
  String, Bool, true, false, List, [], ◌∷◌, ◌≡◌, refl, sym, ap, ◌∙◌, ◌⊎◌, inl, inr, arith,
}
use tvk_plugins.Prelude.Tests.{Bool-cases}
use tvk_plugins.Kube.Calls.{ok, and_then-ok}
use tvk_plugins.Collector.Objects.{LogCollector}
use tvk_plugins.Collector.Flags.{Flags, Libraries, namespaces_flag}
use tvk_plugins.Collector.Inputs.{
  or_default, override_options, override_gvks, override_labels, override_file_inputs_from_cli,
  manage_file_inputs, check_scope, pre_run,
}

module _ (lib : Libraries) (f : Flags) where
  -- The options whose scope is that of others.
  abbrev SameScope : LogCollector → LogCollector → Type 0
  SameScope l r = (r.clustered ≡ l.clustered) × (r.namespaces ≡ l.namespaces)

  override_gvks-SameScope : (l r : LogCollector) → override_gvks lib f l ≡ ok r → SameScope l r
  unfolding override_gvks
  override_gvks-SameScope l r h =
      let (given, parsed, rest) = and_then-ok _ _ h in
      let (gvks, unique, last) = and_then-ok _ _ rest in (cc, cc)

  override_labels-SameScope : (l r : LogCollector) → override_labels lib f l ≡ ok r → SameScope l r
  unfolding override_labels
  override_labels-SameScope l r h = let (given, parsed, last) = and_then-ok _ _ h in (cc, cc)

  -- The scope that the flags give.
  abbrev FlagScope : LogCollector → Type 0
  FlagScope r = r.clustered ≡ false → r.namespaces ≡ f.namespaces

  override_options-FlagScope : (l : LogCollector) → FlagScope (override_options lib f l)
  unfolding override_options
  override_options-FlagScope l h = elim (Bool-cases (f.changed namespaces_flag)) [
    | inl changed ↦ rw changed refl
    | inr kept ↦ rw (kept, h) refl
  ]

  override-FlagScope :
      (l r : LogCollector) → override_file_inputs_from_cli lib f l ≡ ok r → FlagScope r
  unfolding override_file_inputs_from_cli
  override-FlagScope l r h single =
      let (k, configured, rest) = and_then-ok _ _ h in
      let (g, versioned, last) = and_then-ok _ _ rest in
      let (same_clustered, same_namespaces) = override_gvks-SameScope _ g versioned in
      let (clustered, namespaces) = override_labels-SameScope g r last in
      namespaces
      ∙ same_namespaces
      ∙ override_options-FlagScope k (sym same_clustered ∙ sym clustered ∙ single)

  -- The scope of a collection: the whole cluster and no namespace, or the namespaces of the flag.
  abbrev pub HasScope : LogCollector → Type 0
  HasScope r =
      (r.clustered ≡ true) × (r.namespaces ≡ [])
      ⊎ (r.clustered ≡ false) × (r.namespaces ≡ or_default f.namespaces)

  single_scope :
      (l r : LogCollector)
      → FlagScope l
      → l.clustered ≡ false
      → ok (record l {
        namespaces = or_default l.namespaces;
        output_dir = "triliovault-" ++ lib.timestamp;
      })
        ≡ ok r
      → (r.output_dir ≡ "triliovault-" ++ lib.timestamp) × HasScope r
  single_scope l r scope single left =
      let namespaces : r.namespaces ≡ or_default l.namespaces = cc in
      (cc, inr (cc, namespaces ∙ ap or_default (scope single)))

  check_scope_lem :
      (l r : LogCollector) (clustered : Bool) (namespaces : List String)
      → l.clustered ≡ clustered
      → l.namespaces ≡ namespaces
      → FlagScope l
      → check_scope lib l ≡ ok r
      → (r.output_dir ≡ "triliovault-" ++ lib.timestamp) × HasScope r
  unfolding check_scope
  check_scope_lem l r true (n ∷ ns) whole given scope h = absurd (ground (arith, h, whole, given))
  check_scope_lem l r true [] whole none_given scope h =
      let left : ok
            (record l { namespaces = l.namespaces; output_dir = "triliovault-" ++ lib.timestamp })
          ≡ ok r =
        sym (rw (whole, none_given) refl) ∙ h in
      (cc, inl (cc, cc))
  check_scope_lem l r false [] single none_given scope h =
      single_scope l r scope single (sym (rw (single, none_given) refl) ∙ h)
  check_scope_lem l r false (n ∷ ns) single given scope h =
      single_scope l r scope single (sym (rw (single, given) refl) ∙ h)

  -- Where the inputs are accepted, whatever an input file says: the output directory is named by the
  -- time of the run; and the collection is either of the whole cluster, with no namespace, or of the
  -- namespaces of the flag, which are `default` where the flag gives none.
  pub pre_run-HasScope :
      (l r : LogCollector)
      → pre_run lib f l ≡ ok r
      → (r.output_dir ≡ "triliovault-" ++ lib.timestamp) × HasScope r
  unfolding pre_run manage_file_inputs
  pre_run-HasScope l r h =
      let (m, managed, rest) = and_then-ok _ _ h in
      let (level, parsed, last) = and_then-ok _ _ rest in
      let (read, from_file, overridden) = and_then-ok _ _ managed in
      check_scope_lem m r m.clustered m.namespaces refl refl (override-FlagScope read m overridden)
        last
