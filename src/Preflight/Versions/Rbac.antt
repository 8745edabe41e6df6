-- ===== src/Preflight/Versions/Rbac.antt =====
-- When `validateKubernetesRBAC` finds its API version.
use tvk_plugins.Prelude.{
  String, false, ◌&&◌, List, [], ◌∷◌, ◌≡◌, refl, ◌≢◌, ◌⊎◌, inl, arith, ◌↔◌, ◌==◌, eq_iff,
}
use tvk_plugins.Prelude.Tests.{if◌then◌else◌}
use tvk_plugins.Kube.Calls.{Result, ok, err, is_ok}
use tvk_plugins.Preflight.Exec.{State, Exec, pure, raise, on_result}
use tvk_plugins.Preflight.Platform.{Platform}
use tvk_plugins.Preflight.Versions.{find_api_version}

module _ (p : Platform) (group version : String) where
  -- The entry parses as something else.
  abbrev pub IsOther : String → Type 0
  IsOther apiver =
      (gv : String × String) × (p.parse_group_version apiver ≡ ok gv) × (gv ≢ (group, version))

  -- Some entry is the group version, or does not parse, and all before it parse as something else.
  abbrev pub IsFound : List String → Type 0
  IsFound [] = ⊥
  IsFound (apiver ∷ rest) =
      (is_ok (p.parse_group_version apiver) ≡ false)
      ⊎ ((p.parse_group_version apiver ≡ ok (group, version)) ⊎ (IsOther apiver × IsFound rest))

  find-ok_step :
      (r : Result (String × String)) (rest : Exec (Unit {0})) (s : State) (Later : Type 0)
      → ((rest s).0 ≡ ok tt) ↔ Later
      → ((on_result r
            (λ _. pure tt)
            (λ gv. if gv.0 == group && gv.1 == version then pure tt else rest)
            s).0
          ≡ ok tt)
        ↔ ((is_ok r ≡ false)
            ⊎ ((r ≡ ok (group, version))
                ⊎ (((gv : String × String) × (r ≡ ok gv) × (gv ≢ (group, version))) × Later)))
  unfolding on_result pure
  find-ok_step (err e) rest s Later h = ((λ x. inl refl), (λ x. refl))
  find-ok_step (ok (g, v)) rest s Later h = ground (arith, eq_iff g group, eq_iff v version)

  -- The search for an API version returns no error exactly if one of the entries does not parse or is
  -- the wanted group and version, and every entry before it parses as another group or version.
  pub find-ok_iff :
      (apis : List String) (s : State)
      → ((find_api_version p group version apis s).0 ≡ ok tt) ↔ IsFound apis
  unfolding find_api_version raise
  find-ok_iff [] s = ((λ h. absurd (ground arith)), (λ h. absurd h))
  find-ok_iff (x ∷ rest) s = find-ok_step (p.parse_group_version x) _ s _ (find-ok_iff rest s)
