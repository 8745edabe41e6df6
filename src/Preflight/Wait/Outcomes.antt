-- ===== src/Preflight/Wait/Outcomes.antt =====
-- Outcomes of `execInPod` and of a wait for a pod, `WaitUntilPodCondition`.
use tvk_plugins.Prelude.{
  String, Bool, true, false, ◌||◌, Option, none, some, List, [], ◌∷◌, ◌≡◌, refl, ◌≢◌, ◌↔◌, ◌==◌,
  eq_iff, arith, ap, ◌∙◌, sym,
}
use tvk_plugins.Prelude.Tests.{if◌then◌else◌}
use tvk_plugins.Kube.Objects.{Pod}
use tvk_plugins.Kube.Calls.{
  Call, Error, Result, ok, err, empty_pod_or_container, pod_not_in_condition,
}
use tvk_plugins.Kube.Cluster.{ExecReply}
use tvk_plugins.Preflight.Exec.{State, pure, raise, ask, try, ◌>>=◌, on_option}
use tvk_plugins.Action.Inversion.{bind-ok}
use tvk_plugins.Preflight.Platform.{Platform, get_default_retry_backoff_params}
use tvk_plugins.Preflight.Platform.Polls.{Polls}
use tvk_plugins.Preflight.Wait.{
  PodWaitOptions, ExecOptions, has_condition, poll_pod, wait_until_pod_condition, exec_in_pod,
  receive, wait_response,
}

-- A reply that arrives in time and says that the command succeeded.
abbrev pub IsSuccess : Option ExecReply → Type 0
IsSuccess reply = reply ≡ some (record { error = none })

error-none_iff :
    (x : Option Error) (t : State)
    → (((on_option x (pure {A = Unit {0}} tt) raise t).0 ≡ ok tt) ↔ (x ≡ none))
      × ((on_option x (pure {A = Unit {0}} tt) raise t).1 ≡ t)
unfolding on_option pure raise
error-none_iff none t = (((λ h. refl), (λ h. refl)), refl)
error-none_iff (some e) t = (((λ h. cc), (λ h. cc)), refl)

errors : {r : ExecReply} → IsSuccess (some r) → r.error ≡ none
errors {r} h = ap (λ x. elim x [ none ↦ r.error | some y ↦ y.error ]) h

named_iff : (a b : String) → ((a == "" || b == "") ≡ false) ↔ ((a ≢ "") × (b ≢ ""))
named_iff a b = (
  (λ h. ground (arith, eq_iff a "", eq_iff b "")),
  (λ h. ground (arith, eq_iff a "", eq_iff b "")),
)

-- What the receiver makes of the first value on the channel.
receive-ok_iff :
    (p : Platform) (op : ExecOptions) (unnamed : Bool) (reply : Option ExecReply) (t : State)
    → let sent =
        if unnamed
        then some (record { error = some empty_pod_or_container }) ∷ reply ∷ []
        else reply ∷ [] in
      (((receive p op sent t).0 ≡ ok tt) ↔ ((unnamed ≡ false) × IsSuccess reply))
      × ((receive p op sent t).1 ≡ t)
unfolding receive on_option raise
receive-ok_iff p op true reply t = (((λ h. cc), (λ h. cc (h.0))), refl)
receive-ok_iff p op false none t = (((λ h. cc), (λ h. cc (h.1))), refl)
receive-ok_iff p op false (some r) t =
    let ((f, g), e) = error-none_iff r.error t in
    (((λ h. (refl, ap (λ x. some (record { error = x })) (f h))), (λ (h, k). g (errors k))), e)

module _ (p : Platform) where
  pub exec-ok_iff :
      (op : ExecOptions) (s : State)
      → (((exec_in_pod p op s).0 ≡ ok tt) ↔ (
          (op.pod_name ≢ "")
          × (op.container_name ≢ "")
          × IsSuccess (p.exec s.calls op.namespace op.pod_name op.container_name op.command)))
        × ((exec_in_pod p op s).1.calls
            ≡ Call.exec op.namespace op.pod_name op.container_name op.command ∷ s.calls)
  unfolding exec_in_pod ◌>>=◌ pure ask
  exec-ok_iff op s =
      let reply = p.exec s.calls op.namespace op.pod_name op.container_name op.command in
      let ((f, g), e) =
        receive-ok_iff p op (op.pod_name == "" || op.container_name == "") reply (record s {
          calls = Call.exec op.namespace op.pod_name op.container_name op.command ∷ s.calls;
        }) in
      let (v, w) = named_iff op.pod_name op.container_name in
      (
        ((λ h. let (n, k) = f h in let (a, b) = v n in (a, b, k)), (λ (a, b, k). g (w (a, b), k))),
        ap (λ t. t.calls) e,
      )

  poll-calls :
      (o : PodWaitOptions) (s : State) (r : Result Pod)
      → p.get_pod s.calls o.namespace o.name ≡ r
      → (poll_pod p o s).1.calls ≡ Call.get_pod o.namespace o.name ∷ s.calls
  unfolding poll_pod pure ask ◌>>=◌
  poll-calls o s (ok pod) e = rw e refl
  poll-calls o s (err x) e = rw e refl

  poll-reached :
      (o : PodWaitOptions) (s : State)
      → (poll_pod p o s).0 ≡ ok true
      → (pod : Pod) × (p.get_pod s.calls o.namespace o.name ≡ ok pod)
        × (has_condition o.pod_condition pod.conditions ≡ true)
        × ((poll_pod p o s).1.calls ≡ Call.get_pod o.namespace o.name ∷ s.calls)
  unfolding poll_pod pure ask
  poll-reached o s h = let (pod, e, f) = bind-ok _ _ s h in (pod, e, cc (f), poll-calls o s _ e)

  waited :
      (o : PodWaitOptions) (r : Result (Unit {0})) (t : State)
      → let res = wait_response r in
        let m =
          on_option res.error
            (if res.reached_condn
              then pure {A = Unit {0}} tt
              else raise (pod_not_in_condition o.name o.pod_condition))
            raise
            t in
        m.0 ≡ ok tt → (r ≡ ok tt) × (m.1 ≡ t)
  unfolding wait_response on_option pure raise
  waited o (ok tt) t h = (refl, refl)
  waited o (err e) t h = absurd (ground arith)

  -- Where `ExponentialBackoff` succeeds only after its condition returned true, a wait for a pod
  -- ends without an error only if its last call fetched the pod and the pod had the condition.
  pub wait-ok :
      (polls : Polls p) (o : PodWaitOptions) (s : State)
      → (wait_until_pod_condition p o s).0 ≡ ok tt
      → (h : List Call) × (pod : Pod) × (p.get_pod h o.namespace o.name ≡ ok pod)
        × (has_condition o.pod_condition pod.conditions ≡ true)
        × ((wait_until_pod_condition p o s).1.calls ≡ Call.get_pod o.namespace o.name ∷ h)
  unfolding wait_until_pod_condition ◌>>=◌ pure try
  wait-ok polls o s h =
      let (r, t) = p.exponential_backoff get_default_retry_backoff_params (poll_pod p o) s in
      let (e, f) = waited o r t h in
      let (u, g, k) = polls.done get_default_retry_backoff_params (poll_pod p o) s e in
      let (pod, e1, e2, e3) = poll-reached o u g in
      (u.calls, pod, e1, e2, ap (λ x. x.calls) f ∙ (ap (λ x. x.calls) (sym k) ∙ e3))
