-- ===== src/Collector/Collect/Namespaces.antt =====
-- When a collection goes on after `checkIfNamespacesExist` of tools/log-collector/log_collector.go.
use tvk_plugins.Prelude.{String, true, List, [], ◌∷◌, ◌≡◌, refl, subst, ◌↔◌, inl, inr}
use tvk_plugins.Prelude.Tests.{Bool-cases}
use tvk_plugins.Prelude.Lists.{All}
use tvk_plugins.Prelude.Text.{trim}
use tvk_plugins.Kube.Calls.{Result, ok, err}
use tvk_plugins.Collector.Calls.{Call}
use tvk_plugins.Collector.Cluster.{Cluster}
use tvk_plugins.Collector.Exec.{State, pure, raise, gets, ask, continue, ◌>>=◌}
use tvk_plugins.Collector.Filters.{has}
use tvk_plugins.Collector.Collect.{missing_namespaces, report_missing, check_if_namespaces_exist}

-- The name without the spaces around it is that of a namespace of the cluster.
abbrev pub Exists : List String → String → Type 0
Exists existing ns = has (trim ns) existing ≡ true

missing_namespaces_lem :
    (existing ns : List String) → (missing_namespaces existing ns ≡ []) ↔ All (Exists existing) ns
unfolding missing_namespaces
missing_namespaces_lem existing [] = (λ e. tt, λ a. refl)
missing_namespaces_lem existing (n ∷ ns) =
    let rest = missing_namespaces_lem existing ns in
    elim (Bool-cases (has (trim n) existing)) [
      | inl here ↦ rw here (λ e. (refl, rest.0 e), λ a. rest.1 a.1)
      | inr gone ↦ rw gone (λ e. cc, λ a. cc)
    ]

ok-injective : {A : Type 0} {a b : A} → ok a ≡ ok b → b ≡ a
ok-injective h = cc

module _ (p : Cluster) where
  report_missing_lem :
      (missing : List String) (s : State)
      → ((report_missing p missing s).0 ≡ ok tt) ↔ (missing ≡ [])
  unfolding report_missing pure raise
  report_missing_lem [] s = (λ e. refl, λ e. refl)
  report_missing_lem (n ∷ ns) s = (λ e. cc, λ e. cc)

  -- From the reply on.
  replied :
      (r : Result (List String)) (t : State)
      → ((continue r
            (λ existing. gets State.namespaces >>= λ namespaces.
              report_missing p (missing_namespaces existing namespaces))
            t).0
          ≡ ok tt)
        ↔ ((existing : List String) × (r ≡ ok existing) × All (Exists existing) t.namespaces)
  unfolding ◌>>=◌ gets
  replied (err e) t = (λ h. cc, λ h. cc)
  replied (ok existing) t =
      let reported = report_missing_lem (missing_namespaces existing t.namespaces) t in
      let exist = missing_namespaces_lem existing t.namespaces in
      (
        λ h. (existing, refl, exist.0 (reported.0 h)),
        λ h. reported.1 (
            (missing_namespaces_lem existing t.namespaces).1
              (subst (λ x. All (Exists x) t.namespaces) (ok-injective h.1) h.2)),
      )

  -- The check returns no error exactly where the namespaces of the cluster can be listed and every
  -- namespace of the options, without the spaces around its name, is one of them.
  pub check_if_namespaces_exist-Exists :
      (s : State)
      → ((check_if_namespaces_exist p s).0 ≡ ok tt) ↔ (
          (existing : List String) × (p.list_namespaces s.calls ≡ ok existing)
          × All (Exists existing) s.namespaces)
  unfolding check_if_namespaces_exist ◌>>=◌ ask
  check_if_namespaces_exist-Exists s =
      replied (p.list_namespaces s.calls) (record s { calls = Call.list_namespaces ∷ s.calls })
