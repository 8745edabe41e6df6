-- ===== src/Collector/Registration/FromFlags.antt =====
-- The options of a collection that names no input file.
use tvk_plugins.Prelude.{
  String, Bool, not, ◌&&◌, ◌||◌, true, false, ◌≡◌, refl, sym, subst, ◌∙◌, ◌==◌, eq_iff, arith,
}
use tvk_plugins.Prelude.Tests.{if◌then◌else◌}
use tvk_plugins.Kube.Calls.{Error, namespaces_of_cluster, Result, ok, err, and_then-ok}
use tvk_plugins.Internal.CommandLine.{CommandLine, KeepsDefaults, none_kept, given_truth}
use tvk_plugins.Internal.Host.{Host}
use tvk_plugins.Internal.Kubeconfig.{get_kubeconfig_path}
use tvk_plugins.Collector.Objects.{LogCollector}
use tvk_plugins.Collector.Flags.{
  Flags, Libraries, clustered_flag, keep_source_flag, kubeconfig_flag, log_level_flag,
}
use tvk_plugins.Collector.Inputs.{
  is_empty, pre_run, override_kube_config, override_options, override_gvks, override_labels,
  override_file_inputs_from_cli, manage_file_inputs, check_scope,
}
use tvk_plugins.Collector.Registration.{log_collector_command, initial_log_collector}

-- Two options that differ at most in their namespaces, directory, kinds and labels.
abbrev Same : LogCollector → LogCollector → Type 0
Same l r =
    (r.kube_config ≡ l.kube_config)
    × (r.loglevel ≡ l.loglevel)
    × (r.clustered ≡ l.clustered)
    × (r.clean_output ≡ l.clean_output)

Same-trans : (a b c : LogCollector) → Same a b → Same b c → Same a c
Same-trans a b c h k = (k.0 ∙ h.0, k.1 ∙ h.1, k.2 ∙ h.2, k.3 ∙ h.3)

-- Taking apart a test that an accepted result has passed, and one that holds.
else-ok :
    {A : Type 0} (b : Bool) (e : Error) (m : Result A) {r : A}
    → (if b then err e else m) ≡ ok r
    → m ≡ ok r
else-ok true e m h = absurd (ground arith)
else-ok false e m h = h

then-ok :
    {A : Type 0} (b : Bool) (a r : A) (m : Result A)
    → b ≡ true
    → (if b then ok a else m) ≡ ok r
    → a ≡ r
then-ok true a r m t h = cc
then-ok false a r m t h = absurd (ground arith)

module _ (lib : Libraries) (f : Flags) where
  gvks-Same : (l r : LogCollector) → override_gvks lib f l ≡ ok r → Same l r
  unfolding override_gvks
  gvks-Same l r h =
      let (given, parsed, rest) = and_then-ok _ _ h in
      let (gvks, unique, last) = and_then-ok _ _ rest in (cc, cc, cc, cc)

  labels-Same : (l r : LogCollector) → override_labels lib f l ≡ ok r → Same l r
  unfolding override_labels
  labels-Same l r h = let (given, parsed, last) = and_then-ok _ _ h in (cc, cc, cc, cc)

  check_scope-Same : (l r : LogCollector) → check_scope lib l ≡ ok r → Same l r
  unfolding check_scope
  check_scope-Same l r h =
      let passed = else-ok (not (is_empty l.namespaces) && l.clustered) namespaces_of_cluster _ h in
      (cc, cc, cc, cc)

  -- What is left of a start with no options.
  abbrev IsOfFlags : LogCollector → Type 0
  IsOfFlags r =
      (r.kube_config ≡ f.kube_config)
      × (r.loglevel ≡ f.log_level)
      × (r.clustered ≡ (if f.changed clustered_flag then f.clustered else false))
      × (r.clean_output ≡ (if f.changed keep_source_flag then f.keep_source else false))

  abbrev configured_start : LogCollector
  configured_start = record initial_log_collector {
    kube_config = if f.changed kubeconfig_flag || "" == "" then f.kube_config else "";
  }

  override-IsOfFlags :
      (m : LogCollector)
      → override_file_inputs_from_cli lib f initial_log_collector ≡ ok m
      → IsOfFlags m
  unfolding override_file_inputs_from_cli override_options override_kube_config
  override-IsOfFlags m h =
      let (k, configured, rest) = and_then-ok _ _ h in
      let (clients, made, given) = and_then-ok _ _ configured in
      let (g, versioned, last) = and_then-ok _ _ rest in
      let (kube, level, clustered, clean) =
        Same-trans (override_options lib f k) g m (gvks-Same (override_options lib f k) g versioned)
          (labels-Same g m last) in
      let start : configured_start ≡ k = cc in
      let (a, b, c, d) =
        subst (λ x. IsOfFlags (override_options lib f x)) start
          (
            none_kept (f.changed kubeconfig_flag) f.kube_config,
            none_kept (f.changed log_level_flag) f.log_level,
            refl,
            refl,
          ) in
      (kube ∙ a, level ∙ b, clustered ∙ c, clean ∙ d)

  pre_run-IsOfFlags :
      (r : LogCollector)
      → f.input_file_name ≡ ""
      → pre_run lib f initial_log_collector ≡ ok r
      → IsOfFlags r
  unfolding pre_run manage_file_inputs
  pre_run-IsOfFlags r e h =
      let (m, managed, rest) = and_then-ok _ _ h in
      let (level, parsed, last) = and_then-ok _ _ rest in
      let (read, from_file, overridden) = and_then-ok _ _ managed in
      let start =
        then-ok (f.input_file_name == "") initial_log_collector read _
          ((eq_iff f.input_file_name "").1 e) from_file in
      let (a, b, c, d) =
        override-IsOfFlags m
          (subst (λ x. override_file_inputs_from_cli lib f x ≡ ok m) (sym start) overridden) in
      let (kube, logged, clustered, clean) = check_scope-Same m r last in
      (kube ∙ a, logged ∙ b, clustered ∙ c, clean ∙ d)

module _ (cl : CommandLine) (keeps : KeepsDefaults cl) (host : Host)
    (kube_config_default : String) where
  -- From the flags, registered with their defaults.
  abbrev pub IsFromFlags : LogCollector → Type 0
  IsFromFlags r =
      (r.kube_config
        ≡ cl.string_var kubeconfig_flag "k" (get_kubeconfig_path host kube_config_default true))
      × (r.loglevel ≡ cl.string_var log_level_flag "l" "INFO")
      × (r.clustered ≡ cl.bool_var clustered_flag "c" false)
      × (r.clean_output ≡ cl.bool_var keep_source_flag "s" false)

  -- Where no input file is named, the flag library keeps the default of a flag that is not given, and
  -- the inputs are accepted: a collection has the kubeconfig, the level, the scope and the choice to
  -- keep the directory from its flags, whose defaults are the environment's kubeconfig or else the
  -- one in the home directory, `INFO`, and false for both.
  pub pre_run-FromFlags :
      (lib : Libraries) (r : LogCollector)
      → cl.changed "config-file" ≡ false
      → pre_run lib (log_collector_command cl host kube_config_default) initial_log_collector ≡ ok r
      → IsFromFlags r
  unfolding log_collector_command
  pre_run-FromFlags lib r e h =
      let (kube, logged, clustered, clean) =
        pre_run-IsOfFlags lib (log_collector_command cl host kube_config_default) r
          (keeps.text "config-file" "f" "" e) h in
      (
        kube,
        logged,
        clustered ∙ given_truth cl keeps clustered_flag "c" _ refl,
        clean ∙ given_truth cl keeps keep_source_flag "s" _ refl,
      )
