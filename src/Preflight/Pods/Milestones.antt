-- ===== src/Preflight/Pods/Milestones.antt =====
-- The milestones of a volume snapshot check, and the steps of tools/preflight/preflight.go that reach
-- one each.
use tvk_plugins.Prelude.{
  String, Bool, true, List, [], ◌∷◌, ◌≡◌, refl, ap, ◌∙◌, sym, subst, ◌⊎◌, inl, inr,
}
use tvk_plugins.Kube.Objects.{
  Pod, PersistentVolumeClaim, VolumeSnapshot, Object, Nested, found, absent, malformed,
}
use tvk_plugins.Kube.Calls.{Call, Result, ok, is_ok, ok-path}
use tvk_plugins.Action.Inversion.{bind-ok, bind-eq}
use tvk_plugins.Action.Triple.{Triple, Triple-of_ok, Triple-to}
use tvk_plugins.Preflight.Exec.{State, Exec, ask, pure, raise}
use tvk_plugins.Preflight.Exec.Keeps.{Stable}
use tvk_plugins.Preflight.Options.{Run}
use tvk_plugins.Preflight.Platform.{Platform, Backoff}
use tvk_plugins.Preflight.Platform.Polls.{Polls}
use tvk_plugins.Preflight.Wait.{
  PodWaitOptions, has_condition, poll_snapshot, is_ready, wait_until_vol_snap_ready_to_use,
}
use tvk_plugins.Preflight.Wait.Keeps.{
  wait_until_pod_condition-Keeps, wait_until_vol_snap_ready_to_use-Keeps,
}
use tvk_plugins.Preflight.Wait.Outcomes.{IsSuccess, wait-ok}
use tvk_plugins.Preflight.Pods.{create_pod, create_claim, wait_until_ready}

pub data Milestone : Type 0 where
  claim_created : PersistentVolumeClaim → Milestone
  pod_created : Pod → Milestone
  pod_ready : String → Milestone
  snapshot_created : VolumeSnapshot → Milestone
  snapshot_ready : String → String → Milestone
  command_run : String → List String → Milestone
  pod_deleted : String → Milestone

module _ (p : Platform) (ns : String) where
  -- The call reaches the milestone: it asks for just that, in this namespace, and the reply to it,
  -- after the calls `h`, grants it.
  abbrev pub Reaches : Milestone → Call → List Call → Type 0
  Reaches (claim_created spec) (Call.create_claim n c) h =
      (n ≡ ns) × (c ≡ spec) × (is_ok (p.create_claim h n c) ≡ true)
  Reaches (pod_created spec) (Call.create_pod n c) h =
      (n ≡ ns) × (c ≡ spec) × (is_ok (p.create_pod h n c) ≡ true)
  Reaches (pod_ready name) (Call.get_pod n m) h =
      (n ≡ ns)
      × (m ≡ name)
      × ((pod : Pod) × (p.get_pod h n m ≡ ok pod) × (has_condition "Ready" pod.conditions ≡ true))
  Reaches (snapshot_created spec) (Call.create_snapshot v) h =
      (v ≡ spec) × (is_ok (p.create_snapshot h v) ≡ true)
  Reaches (snapshot_ready ver name) (Call.get_snapshot v n m) h =
      (v ≡ ver)
      × (n ≡ ns)
      × (m ≡ name)
      × ((snapshot : VolumeSnapshot) × (p.get_snapshot h v n m ≡ ok snapshot)
          × (snapshot.ready_to_use ≡ found true))
  Reaches (command_run pod command) (Call.exec n m container c) h =
      (n ≡ ns) × (m ≡ pod) × (c ≡ command) × IsSuccess (p.exec h n m container c)
  Reaches (pod_deleted name) (Call.delete (Object.pod pod)) h =
      (pod.meta.name ≡ name) × (is_ok (p.delete h (Object.pod pod)) ≡ true)
  Reaches _ _ h = ⊥

  -- The milestones were reached one after the other; both lists have the newest entry first.
  abbrev pub InOrder : List Milestone → List Call → Type 0
  InOrder [] h = Unit
  InOrder (m ∷ ms) [] = ⊥
  InOrder (m ∷ ms) (c ∷ h) = (Reaches m c h × InOrder ms h) ⊎ InOrder (m ∷ ms) h

  abbrev pub At : List Milestone → State → Type 0
  At ms s = InOrder ms s.calls

  pub InOrder-later :
      (ms : List Milestone) (c : Call) (h : List Call) → InOrder ms h → InOrder ms (c ∷ h)
  InOrder-later [] c h e = tt
  InOrder-later (m ∷ ms) c h e = inr e

  pub At-Stable : (ms : List Milestone) → Stable (At ms) (λ c. Unit {0})
  At-Stable ms = record { call = λ s c q h. InOrder-later ms c s.calls h; fields = λ s a b h. h }

-- What the API server is relied on for: an object has the name that it was created with, and a pod
-- that is fetched the name that was asked for.
pub record NamesAsked (p : Platform) : Type 0 where
  pub of_pod :
      (h : List Call) (ns : String) (spec pod : Pod)
      → p.create_pod h ns spec ≡ ok pod
      → pod.meta.name ≡ spec.meta.name
  pub of_fetched :
      (h : List Call) (ns name : String) (pod : Pod)
      → p.get_pod h ns name ≡ ok pod
      → pod.meta.name ≡ name
  pub of_claim :
      (h : List Call) (ns : String) (spec claim : PersistentVolumeClaim)
      → p.create_claim h ns spec ≡ ok claim
      → claim.meta.name ≡ spec.meta.name
  pub of_snapshot :
      (h : List Call) (spec snapshot : VolumeSnapshot)
      → p.create_snapshot h spec ≡ ok snapshot
      → (snapshot.meta.name ≡ spec.meta.name) × (snapshot.meta.namespace ≡ spec.meta.namespace)

-- Nothing is said of an action that fails.
abbrev pub Reached : {A : Type 0} → (State → Type 0) → Exec A → (A → State → Type 0) → Type 0
Reached pre m post = Triple pre m post (λ s. Unit {0})

module _ (p : Platform) (o : Run) where
  is_ok_of : {A : Type 0} {r : Result A} {a : A} → r ≡ ok a → is_ok r ≡ true
  is_ok_of h = rw h refl

  -- One call that reaches a milestone where it is granted.
  pub asked-Reached :
      {A : Type 0} (m : Milestone) (ms : List Milestone) (c : Call) (reply : List Call → Result A)
      → ((h : List Call) (a : A) → reply h ≡ ok a → Reaches p o.namespace m c h)
      → Reached
          (At p o.namespace ms)
          (ask c reply)
          (λ a s. At p o.namespace (m ∷ ms) s × ((h : List Call) × (reply h ≡ ok a)))
  unfolding ask
  asked-Reached m ms c reply reaches =
      Triple-of_ok _ (λ s before a e. (inl (reaches s.calls a e, before), (s.calls, e)))

  pub create_pod-Reached :
      (names : NamesAsked p) (ms : List Milestone) (spec : Pod)
      → Reached
          (At p o.namespace ms)
          (create_pod p o spec)
          (λ pod s. At p o.namespace (pod_created spec ∷ ms) s × (pod.meta.name ≡ spec.meta.name))
  unfolding create_pod
  create_pod-Reached names ms spec =
      Triple-to _ (asked-Reached (pod_created spec) ms _ _ (λ h a e. (refl, refl, is_ok_of e)))
        (λ pod t (at_last, (h, e)). (at_last, names.of_pod h o.namespace spec pod e)) (λ t u. u)

  pub create_claim-Reached :
      (names : NamesAsked p) (ms : List Milestone) (spec : PersistentVolumeClaim)
      → Reached
          (At p o.namespace ms)
          (create_claim p o spec)
          (λ c s. At p o.namespace (claim_created spec ∷ ms) s × (c.meta.name ≡ spec.meta.name))
  unfolding create_claim
  create_claim-Reached names ms spec =
      Triple-to _ (asked-Reached (claim_created spec) ms _ _ (λ h a e. (refl, refl, is_ok_of e)))
        (λ c t (at_last, (h, e)). (at_last, names.of_claim h o.namespace spec c e)) (λ t u. u)

  -- A call that does not reach the last milestone was made after it.
  earlier :
      (m : Milestone) (ms : List Milestone) (c : Call) (h : List Call)
      → (Reaches p o.namespace m c h → ⊥)
      → InOrder p o.namespace (m ∷ ms) (c ∷ h)
      → InOrder p o.namespace (m ∷ ms) h
  earlier m ms c h other (inl (reached, before)) = absurd (other reached)
  earlier m ms c h other (inr before) = before

  module _ (polls : Polls p) where
    pub wait_until_ready-Reached :
        (m : Milestone) (ms : List Milestone) (name : String)
        → ((h : List Call) → ¬ Reaches p o.namespace m (Call.get_pod o.namespace name) h)
        → Reached
            (At p o.namespace (m ∷ ms))
            (wait_until_ready p o name)
            (λ u s. At p o.namespace (pod_ready name ∷ m ∷ ms) s)
    unfolding wait_until_ready
    wait_until_ready-Reached m ms name other = Triple-of_ok _ (λ s before u e.
        (let ready : PodWaitOptions = record {
          name = name;
          namespace = o.namespace;
          pod_condition = "Ready";
        } in
          let (h, pod, e1, e2, e3) = wait-ok p polls ready s e in
          let kept =
            (wait_until_pod_condition-Keeps (At-Stable p o.namespace (m ∷ ms)) p polls ready tt).at
              s before in
          let last = earlier m ms _ h (other h) (subst (InOrder p o.namespace (m ∷ ms)) e3 kept) in
          subst (InOrder p o.namespace (pod_ready name ∷ m ∷ ms)) (sym e3)
            (inl ((refl, refl, (pod, e1, e2)), last))))

    ready-found :
        (n : Nested Bool) (t : State)
        → (is_ready p n t).0 ≡ ok true
        → (n ≡ found true) × ((is_ready p n t).1 ≡ t)
    unfolding is_ready pure raise
    ready-found (found b) t e = (ap found (ok-path e), refl)
    ready-found malformed t e = cc
    ready-found absent t e = cc

    -- A round of the poll that ends it.
    snapshot_polled :
        (v : VolumeSnapshot) (ver : String) (t : State)
        → (poll_snapshot p v ver t).0 ≡ ok true
        → ((src : VolumeSnapshot) × (p.get_snapshot t.calls ver v.meta.namespace v.meta.name
              ≡ ok src)
            × (src.ready_to_use ≡ found true))
          × ((poll_snapshot p v ver t).1.calls
              ≡ Call.get_snapshot ver v.meta.namespace v.meta.name ∷ t.calls)
    unfolding poll_snapshot ask
    snapshot_polled v ver t g =
        let (src, e1, e2) = bind-ok _ _ t g in
        let (ready, same) = ready-found src.ready_to_use _ e2 in
        ((src, e1, ready), ap (λ z. z.1.calls) (bind-eq _ _ t e1) ∙ ap (λ z. z.calls) same)

    pub wait_snapshot-Reached :
        (m : Milestone) (ms : List Milestone) (v : VolumeSnapshot) (ver : String) (b : Backoff)
        → v.meta.namespace ≡ o.namespace
        → ((h : List Call)
            → ¬ Reaches p o.namespace m (Call.get_snapshot ver v.meta.namespace v.meta.name) h)
        → Reached
            (At p o.namespace (m ∷ ms))
            (wait_until_vol_snap_ready_to_use p v ver b)
            (λ u s. At p o.namespace (snapshot_ready ver v.meta.name ∷ m ∷ ms) s)
    unfolding wait_until_vol_snap_ready_to_use
    wait_snapshot-Reached m ms v ver b inside other = Triple-of_ok _ (λ s before u e.
        (let (t, g, k) = polls.done b (poll_snapshot p v ver) s e in
          let c = Call.get_snapshot ver v.meta.namespace v.meta.name in
          let (polled, calls) = snapshot_polled v ver t g in
          let e3 = ap (λ x. x.calls) (sym k) ∙ calls in
          let kept =
            (wait_until_vol_snap_ready_to_use-Keeps (At-Stable p o.namespace (m ∷ ms)) p polls v ver
                b tt).at
              s before in
          let last =
            earlier m ms c t.calls (other t.calls)
              (subst (InOrder p o.namespace (m ∷ ms)) e3 kept) in
          subst (InOrder p o.namespace (snapshot_ready ver v.meta.name ∷ m ∷ ms)) (sym e3)
            (inl ((refl, inside, refl, polled), last))))
