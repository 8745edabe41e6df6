-- ===== src/Internal/Kubeconfig/Source.antt =====
-- Where the kubeconfig comes from (internal/kube_helper.go).
use tvk_plugins.Prelude.{
  String, true, false, some, ◌==◌, ◌≡◌, refl, ◌⊎◌, inl, inr, subst, ◌∙◌, ap, arith,
}
use tvk_plugins.Prelude.Tests.{Bool-cases, Option-cases}
use tvk_plugins.Kube.Calls.{Error, is_not_found, ok, err, and_then-ok}
use tvk_plugins.Internal.Host.{Host}
use tvk_plugins.Internal.Kubeconfig.{
  kubeconfig_env, check_file_exists, normalize_file, new_config_from_commandline,
}

module _ (p : Host) where
  -- The file is not known to be missing.
  abbrev pub IsThere : String → Type 0
  IsThere path = (e : Error) → p.stat_size path ≡ err e → is_not_found e ≡ false

  check_file_exists-IsThere : (path : String) → check_file_exists p path ≡ ok tt → IsThere path
  unfolding check_file_exists
  check_file_exists-IsThere path h e failed = elim (Bool-cases (is_not_found e)) [
    | inr other ↦ other
    | inl missing ↦ absurd (ground (arith, h, failed, missing))
  ]

  normalize_file-IsThere :
      (path expanded : String)
      → normalize_file p path ≡ ok expanded
      → (p.expand path ≡ ok expanded) × IsThere expanded
  unfolding normalize_file
  normalize_file-IsThere path expanded h =
      let (full, expands, rest) = and_then-ok _ _ h in
      let (u, checked, same) = and_then-ok _ _ rest in
      let equal : full ≡ expanded = cc in
      (expands ∙ ap ok equal, subst IsThere equal (check_file_exists-IsThere full checked))

  -- The given path where there is one, and that of the environment otherwise.
  abbrev pub ComesFrom : String → String → Type 0
  ComesFrom given source =
      ((given == "") ≡ false) × (source ≡ given)
      ⊎ ((given == "") ≡ true) × (p.lookup_env kubeconfig_env ≡ some source)

  -- A path that is returned is the given one or, where none is given, that of the environment, with the
  -- home directory in place of `~`; and the file is not known to be missing.
  pub new_config-ComesFrom :
      (given path : String)
      → new_config_from_commandline p given ≡ ok path
      → (source : String) × ComesFrom given source × (p.expand source ≡ ok path) × IsThere path
  unfolding new_config_from_commandline
  new_config-ComesFrom given path h = elim (Bool-cases (given == "")) [
    | inr some_path ↦
        let (expands, there) = normalize_file-IsThere given path (ground (arith, h, some_path)) in
        (given, inl (some_path, refl), expands, there)
    | inl no_path ↦ elim (Option-cases (p.lookup_env kubeconfig_env)) [
      | inl unset ↦ absurd (ground (arith, h, no_path, unset))
      | inr (value, set) ↦
          let (expands, there) =
            normalize_file-IsThere value path (ground (arith, h, no_path, set)) in
          (value, inr (no_path, set), expands, there)
    ]
  ]
