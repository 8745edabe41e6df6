-- ===== src/Preflight/Run/Outcome.antt =====
-- The result of a run against the outcomes that it logs.
use tvk_plugins.Prelude.{String, Bool, true, false, [], ◌≡◌, ◌↔◌, refl}
use tvk_plugins.Prelude.Tests.{if◌then◌else◌}
use tvk_plugins.Kube.Calls.{Error, checks_failed, Result, ok, err, is_ok}
use tvk_plugins.Preflight.Exec.{
  ask, State, Exec, helm, snapshot_class, pure, raise, try, log_verdict, continue, ◌>>=◌, ◌>>◌,
  on_result,
}
use tvk_plugins.Preflight.Exec.Keeps.{Stable, Keeps-ask}
use tvk_plugins.Preflight.Options.{Run}
use tvk_plugins.Preflight.Platform.{Platform}
use tvk_plugins.Preflight.Platform.Polls.{Polls}
use tvk_plugins.Preflight.Resources.{create_resource_name_suffix}
use tvk_plugins.Preflight.Resources.Keeps.{create_resource_name_suffix-Keeps}
use tvk_plugins.Preflight.Footprint.{RunCall}
use tvk_plugins.Preflight.Pods.Keeps.{
  validate_dns_resolution-Keeps, validate_required_pod_capabilities-Keeps,
  validate_volume_snapshot-Keeps,
}
use tvk_plugins.Preflight.Run.{
  kubectl_step, access_step, helm_step, kubernetes_version_step, rbac_step, crds_step,
  storage_class_step, capability_step, snapshot_class_step, dns_step, volume_snapshot_step,
  run_checks, finish, set_res_name_suffix, perform_preflight_checks,
}
use tvk_plugins.Preflight.Run.Keeps.{
  crds-Keeps, access-Keeps, version-Keeps, rbac-Keeps, preferred-Keeps, class-Keeps, kubectl-Keeps,
  helm-Keeps, finish-Keeps,
}
use tvk_plugins.Preflight.Run.Calls.{checked}
use tvk_plugins.Preflight.Run.Tally.{
  passed, Tally, Tally-Stable, Tracks, Tracks-pure-true, Tracks-report, Tracks-report_failure,
  Tracks-first, Tracks-if, Tally-success, Ends, Ends-pure, Ends-bind, and-false,
}

module _ {x : Bool} (k : Result String → Exec Bool) (kd : (d : String) → Ends x (k (ok d)))
    (ke : (e : Error) → Ends false (k (err e))) where
  storage_class_cases :
      (r : Result String) (t : State)
      → passed t.verdicts ≡ x
      → (b : Bool) × ((((on_result r
                (λ e. log_verdict snapshot_class false >> pure r)
                (λ _. pure r))
              >>= k)
            t).0
          ≡ ok b)
        × (passed
              (((on_result r (λ e. log_verdict snapshot_class false >> pure r) (λ _. pure r)) >>= k)
                t).1.verdicts
            ≡ b)
  unfolding ◌>>=◌ on_result passed ask log_verdict
  storage_class_cases (ok d) t h = (kd d).at t h
  storage_class_cases (err e) t h = (ke e).at _ refl

module _ (o : Run) (suffix : String) (p : Platform) (polls : Polls p) where
  stable : (c : Bool) → Stable (Tally c) (RunCall o suffix)
  stable c = Tally-Stable c (RunCall o suffix)

  kubectl_step-Tracks : Tracks (kubectl_step p o)
  unfolding kubectl_step
  kubectl_step-Tracks =
      Tracks-if _ _ _ (λ i. Tracks-pure-true)
        (λ outside. Tracks-report _ _ (λ c. kubectl-Keeps o suffix (stable c) p outside))

  access_step-Tracks : Tracks (access_step p o)
  unfolding access_step
  access_step-Tracks = Tracks-report _ _ (λ c. access-Keeps o suffix (stable c) p)

  helm_step-Tracks : Tracks (helm_step p o)
  unfolding helm_step
  helm_step-Tracks =
      Tracks-if _ _ _ (λ i. Tracks-pure-true)
        (λ outside.
          Tracks-report_failure _ _
            (λ c. helm-Keeps o suffix (stable c) p outside (Tally-success helm c)))

  kubernetes_version_step-Tracks : Tracks (kubernetes_version_step p o)
  unfolding kubernetes_version_step
  kubernetes_version_step-Tracks = Tracks-report _ _ (λ c. version-Keeps o suffix (stable c) p)

  rbac_step-Tracks : Tracks (rbac_step p o)
  unfolding rbac_step
  rbac_step-Tracks = Tracks-report _ _ (λ c. rbac-Keeps o suffix (stable c) p)

  capability_step-Tracks : Tracks (capability_step p o suffix)
  unfolding capability_step
  capability_step-Tracks =
      Tracks-report _ _ (λ c. validate_required_pod_capabilities-Keeps o suffix (stable c) p polls)

  dns_step-Tracks : Tracks (dns_step p o suffix)
  unfolding dns_step
  dns_step-Tracks =
      Tracks-report _ _ (λ c. validate_dns_resolution-Keeps o suffix (stable c) p polls)

  volume_snapshot_step-Tracks : (b : Bool) → Tracks (volume_snapshot_step p o b suffix)
  unfolding volume_snapshot_step
  volume_snapshot_step-Tracks b =
      Tracks-if b _ _
        (λ _. Tracks-report _ _ (λ c. validate_volume_snapshot-Keeps o suffix (stable c) p polls))
        (λ _. Tracks-pure-true)

  crds_step-Tracks : Tracks (crds_step p o)
  unfolding crds_step
  crds_step-Tracks =
      Tracks-first _ _ _ (λ c. Keeps-ask (stable c) _ _ tt)
        (λ v. Tracks-report _ _ (λ c. crds-Keeps o suffix (stable c) p v.string))

  snapshot_class_step-Tracks : (d : String) → Tracks (snapshot_class_step p o (ok d))
  unfolding snapshot_class_step ◌>>=◌ on_result
  snapshot_class_step-Tracks d =
      Tracks-first _ _ _ (λ c. preferred-Keeps o suffix (stable c) p)
        (λ v. Tracks-report _ _ (λ c. class-Keeps o suffix (stable c) p d v))

  -- Without the storage class the failure is logged here, and the later step says so again.
  Ends-storage_class_step :
      {x : Bool} (k : Result String → Exec Bool)
      → ((d : String) → Ends x (k (ok d)))
      → ((e : Error) → Ends false (k (err e)))
      → Ends x (storage_class_step p o >>= k)
  unfolding storage_class_step ◌>>=◌ on_result passed ask log_verdict
  Ends-storage_class_step k kd ke = record {
    at = λ s h. storage_class_cases k kd ke (p.get_storage_class s.calls o.storage_class) _ h;
  }

  Ends-skipped :
      {x : Bool} (e : Error) (k : Bool → Exec Bool)
      → Ends x (k false)
      → Ends x (snapshot_class_step p o (err e) >>= k)
  unfolding snapshot_class_step ◌>>=◌ on_result
  Ends-skipped e k h = record { at = λ s q. h.at s q }

  -- The checks behind the storage class, with it and without it.
  run_checks-Ends : Ends true (run_checks p o suffix)
  unfolding run_checks
  run_checks-Ends = Ends-bind _ _ kubectl_step-Tracks λ kubectl_ok.
      Ends-bind _ _ access_step-Tracks λ access_ok. Ends-bind _ _ helm_step-Tracks λ helm_ok.
        Ends-bind _ _ kubernetes_version_step-Tracks λ version_ok.
          Ends-bind _ _ rbac_step-Tracks λ rbac_ok. Ends-bind _ _ crds_step-Tracks λ crds_ok.
            Ends-storage_class_step _
              (λ d. Ends-bind _ _ capability_step-Tracks λ capability_ok.
                Ends-bind _ _ (snapshot_class_step-Tracks d) λ storage_ok.
                  Ends-bind _ _ dns_step-Tracks λ dns_ok.
                    Ends-bind _ _ (volume_snapshot_step-Tracks storage_ok)
                      λ snapshot_ok. Ends-pure _ refl)
              (λ e. Ends-bind _ _ capability_step-Tracks λ capability_ok. Ends-skipped e _ (
                Ends-bind _ _ dns_step-Tracks λ dns_ok.
                  Ends-bind _ _ (volume_snapshot_step-Tracks false)
                    λ snapshot_ok. Ends-pure _ (rw and-false)))

  abbrev result_of : Bool → Result (Unit {0})
  result_of b = if b then ok tt else err checks_failed

  finish-result : (b : Bool) (s : State) → (finish p o b suffix s).0 ≡ result_of b
  unfolding finish ◌>>=◌
  finish-result true s = refl
  finish-result false s = refl

  Outcome : Result (Unit {0}) → State → Type 0
  Outcome r t = (b : Bool) × (r ≡ result_of b) × (passed t.verdicts ≡ b)

  finished :
      (r : Result Bool) (b : Bool) (t : State)
      → r ≡ ok b
      → passed t.verdicts ≡ b
      → Outcome
          (continue r (λ c. finish p o c suffix) t).0
          (continue r (λ c. finish p o c suffix) t).1
  unfolding Outcome
  finished (ok c) b t e q =
      let f : c ≡ b = cc in
      (b, rw f (finish-result b t), rw f ((finish-Keeps o suffix (stable b) p b).at t q))
  finished (err x) b t e q = cc

  checked-Outcome :
      (s : State)
      → passed s.verdicts ≡ true
      → Outcome (checked p o suffix s).0 (checked p o suffix s).1
  unfolding ◌>>=◌
  checked-Outcome s h =
      let (b, e, q) = run_checks-Ends.at s h in
      finished (run_checks p o suffix s).0 b (run_checks p o suffix s).1 e q

module _ (p : Platform) (polls : Polls p) (o : Run) where
  abbrev Agrees : Result String → Result (Unit {0}) → State → Type 0
  Agrees suffix r t = (r ≡ ok tt) ↔ ((is_ok suffix ≡ true) × (passed t.verdicts ≡ true))

  Agrees-of_Outcome :
      (x : String) (r : Result (Unit {0})) (t : State) → Outcome o x p polls r t → Agrees (ok x) r t
  unfolding Outcome
  Agrees-of_Outcome x r t (true, e, q) = ((λ _. (refl, q)), (λ _. e))
  Agrees-of_Outcome x r t (false, e, q) = ((λ h. cc), (λ h. cc (h.1)))

  after_suffix-Agrees :
      (r : Result String) (s : State)
      → passed s.verdicts ≡ true
      → Agrees r
          (on_result r
            (λ e. set_res_name_suffix "" >> raise {A = Unit {0}} e)
            (λ suffix. set_res_name_suffix suffix >> checked p o suffix)
            s).0
          (on_result r
            (λ e. set_res_name_suffix "" >> raise {A = Unit {0}} e)
            (λ suffix. set_res_name_suffix suffix >> checked p o suffix)
            s).1
  unfolding on_result set_res_name_suffix ◌>>=◌
  after_suffix-Agrees (err e) s h = ((λ q. cc), (λ q. cc (q.0)))
  after_suffix-Agrees (ok suffix) s h =
      Agrees-of_Outcome suffix _ (checked p o suffix (record s { res_name_suffix = suffix })).1
        (checked-Outcome o suffix p polls (record s { res_name_suffix = suffix }) h)

  -- From an empty log, and where `ExponentialBackoff` acts only through its condition, a run returns no error exactly when a suffix for its resources was generated
  -- and it logged no failed check.
  pub perform-ok_iff :
      (s : State)
      → s.verdicts ≡ []
      → ((perform_preflight_checks p o s).0 ≡ ok tt) ↔ (
          (is_ok (create_resource_name_suffix p s).0 ≡ true)
          × (passed (perform_preflight_checks p o s).1.verdicts ≡ true))
  unfolding perform_preflight_checks ◌>>=◌ try
  perform-ok_iff s h =
      let (r, t) = create_resource_name_suffix p s in
      after_suffix-Agrees r t (
        (create_resource_name_suffix-Keeps (Tally-Stable true (λ c. Unit {0})) p tt).at s
          (rw h (unfold passed in refl)))
