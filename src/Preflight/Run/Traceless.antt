-- ===== src/Preflight/Run/Traceless.antt =====
-- A run that passes, together with the cleanup that it ends with: `PerformPreflightChecks` of
-- tools/preflight/preflight.go and tools/preflight/cleanup.go.
use tvk_plugins.Prelude.{String, Bool, true, false, ◌≡◌, refl, sym, ap, ◌∙◌}
use tvk_plugins.Kube.Calls.{ok}
use tvk_plugins.Action.Inversion.{bind-ok, bind-eq}
use tvk_plugins.Preflight.Exec.{State, pure, raise, try, modify, ◌>>=◌, on_result}
use tvk_plugins.Preflight.Options.{Run}
use tvk_plugins.Preflight.Platform.{Platform}
use tvk_plugins.Preflight.Resources.{create_resource_name_suffix}
use tvk_plugins.Preflight.Footprint.{own_cleanup}
use tvk_plugins.Preflight.Cleanup.{cleanup_preflight_resources}
use tvk_plugins.Preflight.Run.{run_checks, finish, set_res_name_suffix, perform_preflight_checks}

module _ (p : Platform) (o : Run) where
  finish-ok :
      (status : Bool) (suffix : String) (t : State)
      → (finish p o status suffix t).0 ≡ ok tt
      → (finish p o status suffix t).1 ≡ (cleanup_preflight_resources p (own_cleanup o suffix) t).1
  unfolding finish ◌>>=◌ try pure raise
  finish-ok true suffix t h = refl
  finish-ok false suffix t h = cc

  finish-status :
      (status : Bool) (suffix : String) (t : State)
      → (finish p o status suffix t).0 ≡ ok tt
      → status ≡ true
  unfolding finish ◌>>=◌ pure raise
  finish-status true suffix t h = refl
  finish-status false suffix t h = cc

  -- A run that returns no error passed its checks, and ends with its cleanup.
  pub perform-cleans :
      (s : State) (suffix : String)
      → (create_resource_name_suffix p s).0 ≡ ok suffix
      → (perform_preflight_checks p o s).0 ≡ ok tt
      → (t : State) × ((run_checks p o suffix t).0 ≡ ok true)
        × ((perform_preflight_checks p o s).1
            ≡ (cleanup_preflight_resources p (own_cleanup o suffix) (run_checks p o suffix t).1).1)
  unfolding perform_preflight_checks on_result set_res_name_suffix modify try
  perform-cleans s suffix e h =
      let t = record ((create_resource_name_suffix p s).1) { res_name_suffix = suffix } in
      let begun : perform_preflight_checks p o s
          ≡ (run_checks p o suffix >>= λ b. finish p o b suffix) t =
        bind-eq (try (create_resource_name_suffix p)) _ s (ap ok e)
        ∙ bind-eq (set_res_name_suffix suffix) _ _ refl in
      let (status, e1, e2) =
        bind-ok (run_checks p o suffix) (λ b. finish p o b suffix) t
          (ap (λ z. z.0) (sym begun) ∙ h) in
      (
        t,
        e1 ∙ ap ok (finish-status status suffix _ e2),
        ap (λ z. z.1) (begun ∙ bind-eq _ _ t e1) ∙ finish-ok status suffix _ e2,
      )
