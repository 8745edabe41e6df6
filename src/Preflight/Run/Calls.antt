-- ===== src/Preflight/Run/Calls.antt =====
-- The footprint of a run: whatever the cluster answers, and whether the run fails or not.
use tvk_plugins.Prelude.{String, [], ◌≡◌, refl, subst, sym}
use tvk_plugins.Prelude.Lists.{All}
use tvk_plugins.Kube.Calls.{Result, ok, err}
use tvk_plugins.Preflight.Exec.{State, Exec, raise, try, ◌>>=◌, ◌>>◌, on_result}
use tvk_plugins.Preflight.Exec.Keeps.{Keeps, Stable, IsVerdictFree, keeps_rules}
use tvk_plugins.Preflight.Options.{Run}
use tvk_plugins.Preflight.Platform.{Platform}
use tvk_plugins.Preflight.Platform.Polls.{Polls}
use tvk_plugins.Preflight.Resources.{create_resource_name_suffix}
use tvk_plugins.Preflight.Resources.Keeps.{create_resource_name_suffix-Keeps}
use tvk_plugins.Preflight.Footprint.{RunCall}
use tvk_plugins.Preflight.Run.{run_checks, finish, set_res_name_suffix, perform_preflight_checks}
use tvk_plugins.Preflight.Run.Keeps.{run_checks-Keeps, finish-Keeps}

-- The calls so far belong to a run with this suffix.
abbrev Footprint : Run → String → State → Type 0
Footprint o suffix s = (s.res_name_suffix ≡ suffix) × All (RunCall o suffix) s.calls

Footprint-Stable : (o : Run) (suffix : String) → Stable (Footprint o suffix) (RunCall o suffix)
Footprint-Stable o suffix = record {
  call = λ s c q h. (h.0, (q, h.1));
  fields = λ s a b h. (h.0, h.1);
}

Footprint-IsVerdictFree : (o : Run) (suffix : String) → IsVerdictFree (Footprint o suffix)
Footprint-IsVerdictFree o suffix = record { verdicts = λ s vs h. (h.0, h.1) }

-- The calls so far belong to every run.
abbrev Common : Run → State → Type 0
Common o s = (suffix : String) → All (RunCall o suffix) s.calls

Common-Stable : (o : Run) → Stable (Common o) (λ c. (suffix : String) → RunCall o suffix c)
Common-Stable o = record {
  call = λ s c q h suffix. (q suffix, h suffix);
  fields = λ s a b h suffix. h suffix;
}

abbrev Whole : Run → State → Type 0
Whole o s = All (RunCall o s.res_name_suffix) s.calls

-- The body of `PerformPreflightChecks` from the suffix on.
abbrev pub checked : Platform → Run → String → Exec (Unit {0})
checked p o suffix = do preflight_status ← run_checks p o suffix; finish p o preflight_status suffix

module _ (p : Platform) (polls : Polls p) (o : Run) where
  checked-Footprint : (suffix : String) → Keeps (Footprint o suffix) (checked p o suffix)
  checked-Footprint suffix =
      let checks : Keeps (Footprint o suffix) (run_checks p o suffix) =
        run_checks-Keeps o suffix (Footprint-Stable o suffix) (Footprint-IsVerdictFree o suffix) p
          polls in
      search (keeps_rules, finish-Keeps o suffix (Footprint-Stable o suffix) p)

  Whole-of_Footprint : (suffix : String) (s : State) → Footprint o suffix s → Whole o s
  Whole-of_Footprint suffix s h = subst (λ x. All (RunCall o x) s.calls) (sym h.0) h.1

  after_suffix-Whole :
      (r : Result String) (s : State)
      → Common o s
      → Whole o
          (on_result r
            (λ e. set_res_name_suffix "" >> raise {A = Unit {0}} e)
            (λ suffix. set_res_name_suffix suffix >> checked p o suffix)
            s).1
  unfolding on_result set_res_name_suffix ◌>>=◌
  after_suffix-Whole (err e) s h = h ""
  after_suffix-Whole (ok suffix) s h =
      Whole-of_Footprint suffix (checked p o suffix (record s { res_name_suffix = suffix })).1
        ((checked-Footprint suffix).at (record s { res_name_suffix = suffix }) (refl, h suffix))

  pub perform-RunCall :
      (s : State)
      → s.calls ≡ []
      → All
          (RunCall o (perform_preflight_checks p o s).1.res_name_suffix)
          (perform_preflight_checks p o s).1.calls
  unfolding perform_preflight_checks ◌>>=◌ try
  perform-RunCall s h =
      let (r, t) = create_resource_name_suffix p s in
      after_suffix-Whole r t (
        (create_resource_name_suffix-Keeps (Common-Stable o) p (λ suffix. tt)).at s
          (λ suffix. subst (All (RunCall o suffix)) (sym h) tt))
