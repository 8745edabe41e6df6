-- ===== src/Preflight/Run/Passed.antt =====
-- What a run that passes went through: `PerformPreflightChecks` of tools/preflight/preflight.go with
-- the three checks that make pods.
use tvk_plugins.Prelude.{zero, String, Bool, true, false, List, [], ◌≡◌, refl, sym, subst, ap, ◌∙◌}
use tvk_plugins.Prelude.Tests.{and_true}
use tvk_plugins.Kube.Calls.{Call, Result, ok, err}
use tvk_plugins.Action.Triple.{
  Triple-bind, Triple-of_Keeps, Triple-of_ok, Triple-ok, Triple-return, Triple-to,
}
use tvk_plugins.Preflight.Exec.{State, Exec, Check, pure, try, log_verdict, ◌>>=◌, ◌>>◌, on_result}
use tvk_plugins.Preflight.Options.{Run}
use tvk_plugins.Preflight.Platform.{Platform}
use tvk_plugins.Preflight.Platform.Polls.{Polls}
use tvk_plugins.Preflight.Resources.{create_resource_name_suffix}
use tvk_plugins.Preflight.Pods.{validation_cases}
use tvk_plugins.Preflight.Pods.Milestones.{
  Milestone, InOrder, InOrder-later, At, NamesAsked, Reached,
}
use tvk_plugins.Preflight.Pods.Restored.{milestones, validate-Reached}
use tvk_plugins.Preflight.Pods.Passed.{dns_resolved, capable, dns-Reached, capabilities-Reached}
use tvk_plugins.Prelude.Lists.{All-trivial}
use tvk_plugins.Preflight.Exec.Keeps.{Stable}
use tvk_plugins.Preflight.Footprint.{RunCall, own_cleanup}
use tvk_plugins.Preflight.Cleanup.Keeps.{cleanup_preflight_resources-Keeps}
use tvk_plugins.Preflight.Run.Keeps.{snapshot_class_step-Keeps}
use tvk_plugins.Preflight.Run.Traceless.{perform-cleans}
use tvk_plugins.Preflight.Run.{
  report, run_checks, perform_preflight_checks, capability_step, snapshot_class_step, dns_step,
  volume_snapshot_step,
}

-- The result of a check that was logged as successful.
report-ok :
    (c : Check) (r : Result (Unit {0})) (u : State)
    → let out =
        on_result r
          (λ e. log_verdict c false >> pure false)
          (λ x. log_verdict c true >> pure true)
          u in
      out.0 ≡ ok true → (r ≡ ok tt) × (out.1.calls ≡ u.calls)
unfolding on_result log_verdict pure ◌>>=◌
report-ok c (ok x) u h = (refl, refl)
report-ok c (err e) u h = cc

-- What a check reaches, its report reaches where it says so.
reported :
    {pre : State → Type 0} (post : List Call → Type 0) (c : Check) (m : Exec (Unit {0})) (t : State)
    → Reached pre m (λ u s. post s.calls)
    → pre t
    → (report c m t).0 ≡ ok true
    → post (report c m t).1.calls
unfolding report ◌>>=◌ try
reported post c m t reached before h =
    let (passed, same) = report-ok c (m t).0 (m t).1 h in
    subst post (sym same) (Triple-ok m t tt reached before passed)

module _ (o : Run) (suffix : String) where
  -- The pods of the capability check.
  abbrev capable_pods : List Milestone
  capable_pods = capable o zero suffix validation_cases []

  -- All milestones of a run, the newest first.
  abbrev pub run_milestones : String → String → String → List Milestone
  run_milestones ver class class' =
      milestones o suffix ver (dns_resolved o suffix capable_pods) class class'

module _ (p : Platform) (polls : Polls p) (names : NamesAsked p) (o : Run) (suffix : String) where
  abbrev Passed : List Call → Type 0
  Passed h =
      (ver : String) × (class : String) × (class' : String) × InOrder p o.namespace
        (run_milestones o suffix ver class class') h

  -- What was reached where the checks before it passed, `G`, and where the step passed.
  capability_step-Reached :
      Reached
        (λ s. Unit {0})
        (capability_step p o suffix)
        (λ b s. b ≡ true → At p o.namespace (capable_pods o suffix) s)
  unfolding capability_step
  capability_step-Reached = Triple-of_ok _ (λ s before b e h.
      reported (InOrder p o.namespace (capable_pods o suffix)) _ _ s
        (capabilities-Reached p polls names o [] suffix) before (e ∙ ap ok h))

  class_step-Reached :
      (G : Type 0) (sc : Result String)
      → Reached
          (λ s. G → At p o.namespace (capable_pods o suffix) s)
          (snapshot_class_step p o sc)
          (λ b s. G → At p o.namespace (capable_pods o suffix) s)
  class_step-Reached G sc =
      let stable : Stable (λ s. G → At p o.namespace (capable_pods o suffix) s) (RunCall o suffix) =
        record {
          call = λ s c q h g. InOrder-later p o.namespace (capable_pods o suffix) c s.calls (h g);
          fields = λ s a b h g. h g;
        } in
      Triple-to _
        (Triple-of_Keeps _ (
          snapshot_class_step-Keeps o suffix stable (record { verdicts = λ s vs h g. h g }) p polls
            sc))
        (λ b s h. h) (λ s h. tt)

  dns_step-Reached :
      (G : Type 0)
      → Reached
          (λ s. G → At p o.namespace (capable_pods o suffix) s)
          (dns_step p o suffix)
          (λ b s.
            G × (b ≡ true) → At p o.namespace (dns_resolved o suffix (capable_pods o suffix)) s)
  unfolding dns_step
  dns_step-Reached G = Triple-of_ok _ (λ s before b e (g, h).
      reported (InOrder p o.namespace (dns_resolved o suffix (capable_pods o suffix))) _ _ s
        (dns-Reached p polls names o (capable_pods o suffix) suffix) (before g) (e ∙ ap ok h))

  volume_snapshot_step-Reached :
      (G : Type 0) (storage : Bool)
      → Reached
          (λ s. G → At p o.namespace (dns_resolved o suffix (capable_pods o suffix)) s)
          (volume_snapshot_step p o storage suffix)
          (λ b s. G × (storage ≡ true) × (b ≡ true) → Passed s.calls)
  unfolding volume_snapshot_step
  volume_snapshot_step-Reached G true = Triple-of_ok _ (λ s before b e (g, t, h).
      reported Passed _ _ s
        (validate-Reached p polls names o (dns_resolved o suffix (capable_pods o suffix)) suffix)
        (before g) (e ∙ ap ok h))
  volume_snapshot_step-Reached G false = Triple-of_ok _ (λ s before b e (g, t, h). cc)

  any-Reached : {A : Type 0} {pre : State → Type 0} (m : Exec A) → Reached pre m (λ a s. Unit {0})
  any-Reached m = Triple-of_ok m (λ s before a e. tt)

  run_checks-Reached :
      Reached (λ s. Unit {0}) (run_checks p o suffix) (λ b s. b ≡ true → Passed s.calls)
  unfolding run_checks
  run_checks-Reached = Triple-bind _ _ (any-Reached _) (λ b1. Triple-bind _ _ (any-Reached _) (λ b2.
      Triple-bind _ _ (any-Reached _) (λ b3. Triple-bind _ _ (any-Reached _) (λ b4.
        Triple-bind _ _ (any-Reached _) (λ b5. Triple-bind _ _ (any-Reached _) (λ b6.
          Triple-bind _ _ (any-Reached _) (λ sc. Triple-bind _ _ capability_step-Reached (λ b8.
            Triple-bind _ _ (class_step-Reached (b8 ≡ true) sc) (λ b9.
              Triple-bind _ _ (dns_step-Reached (b8 ≡ true)) (λ b10.
                Triple-bind _ _ (volume_snapshot_step-Reached ((b8 ≡ true) × (b10 ≡ true)) b9)
                  (λ b11. Triple-return _ (λ s passed all.
                    (let (most, h11) = and_true _ b11 all in
                      let (more, h10) = and_true _ b10 most in
                      let (some, h9) = and_true _ b9 more in
                      let (few, h8) = and_true _ b8 some in passed ((h8, h10), h9, h11))))))))))))))

  Passed-Stable : Stable (λ s. Passed s.calls) (λ c. Unit {0})
  Passed-Stable = record {
    call = λ s c q (ver, class, class', h). (
      ver,
      class,
      class',
      InOrder-later p o.namespace (run_milestones o suffix ver class class') c s.calls h,
    );
    fields = λ s a b h. h;
  }

  -- Where `ExponentialBackoff` succeeds only after its condition returned true, and an object has the
  -- name that it was asked for: a run with this suffix that returns no error went, one after the
  -- other, through all of these, each granted by the cluster: for each of the three capabilities a pod
  -- was made and got ready; the DNS pod was made, got ready and resolved the name of the API server;
  -- and the volume snapshot check went through its milestones: the source claim and a pod with it, a
  -- snapshot of the claim that got ready, a claim and a pod from it with the data in it, the deletion
  -- of the source pod, and then a second snapshot with a claim, a pod and the data of its own.
  pub perform-passes :
      (s : State)
      → (create_resource_name_suffix p s).0 ≡ ok suffix
      → (perform_preflight_checks p o s).0 ≡ ok tt
      → (ver : String) × (class : String) × (class' : String) × InOrder p o.namespace
          (run_milestones o suffix ver class class')
          (perform_preflight_checks p o s).1.calls
  perform-passes s e h =
      let (t, passed, same) = perform-cleans p o s suffix e h in
      let u = (run_checks p o suffix t).1 in
      let co = own_cleanup o suffix in
      subst (λ z. Passed z.calls) (sym same)
        ((cleanup_preflight_resources-Keeps Passed-Stable p {Good = λ x. Unit {0}} (λ x g. tt)
            (λ g n ns. tt) (λ g n ns. tt) co (λ k g objs f. All-trivial objs) tt (λ g. tt)).at
          u (Triple-ok (run_checks p o suffix) t true run_checks-Reached tt passed refl))
