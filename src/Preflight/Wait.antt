-- ===== src/Preflight/Wait.antt =====
-- Waiting for pods and snapshots, and commands in containers: tools/preflight/wait/pod_wait.go,
-- tools/preflight/exec/exec_to_pod.go, and their callers in tools/preflight/helper.go.
pub mod Keeps
pub mod Outcomes
use tvk_plugins.Prelude.{
  String, Bool, true, false, ◌&&◌, ◌||◌, Option, none, some, List, [], ◌∷◌, ◌==◌,
}
use tvk_plugins.Prelude.Tests.{if◌then◌else◌}
use tvk_plugins.Kube.Objects.{PodCondition, Nested, absent, malformed, found, VolumeSnapshot}
use tvk_plugins.Kube.Calls.{
  Error, failed, pod_not_in_condition, exec_timeout, empty_pod_or_container, Result, ok, err, Call,
}
use tvk_plugins.Kube.Cluster.{ExecReply}
use tvk_plugins.Preflight.Exec.{Exec, pure, raise, ask, try, ◌>>=◌, on_option}
use tvk_plugins.Preflight.Platform.{Platform, Backoff, get_default_retry_backoff_params}

-- `wait.Response`
pub record WaitResponse : Type 0 where
  pub reached_condn : Bool
  pub error : Option Error

pub record PodWaitOptions : Type 0 where
  pub name : String
  pub namespace : String
  pub pod_condition : String

-- The loop over the pod's conditions.
unfoldable pub has_condition : String → List PodCondition → Bool
has_condition cond [] = false
has_condition cond (c ∷ cs) = c.status == "True" && c.type == cond || has_condition cond cs

unfoldable pub wait_response : Result (Unit {0}) → WaitResponse
wait_response (err e) = record { reached_condn = false; error = some e }
wait_response (ok _) = record { reached_condn = true; error = none }

-- `exec.Options`, without the clients
pub record ExecOptions : Type 0 where
  pub namespace : String
  pub command : List String
  pub pod_name : String
  pub container_name : String

module _ (p : Platform) where
  -- One round of the poll.
  unfoldable pub poll_pod : PodWaitOptions → Exec Bool
  unfolding has_condition
  poll_pod o = do
    pod ← ask (Call.get_pod o.namespace o.name) (λ h. p.get_pod h o.namespace o.name)
    pure (has_condition o.pod_condition pod.conditions)

  unfoldable pub wait_on_pod : PodWaitOptions → Backoff → Exec WaitResponse
  unfolding wait_response
  wait_on_pod o retry_backoff = do
    ret ← try (p.exponential_backoff retry_backoff (poll_pod o))
    pure (wait_response ret)

  unfoldable pub wait_until_pod_condition : PodWaitOptions → Exec (Unit {0})
  unfolding wait_on_pod
  wait_until_pod_condition wop = do
    res ← wait_on_pod wop get_default_retry_backoff_params
    on_option res.error
        (if res.reached_condn
          then pure tt
          else raise (pod_not_in_condition wop.name wop.pod_condition))
        raise

  unfoldable pub is_ready : Nested Bool → Exec Bool
  is_ready (found ready) = pure ready
  is_ready malformed = raise (failed "status.readyToUse is no boolean")
  is_ready absent = pure false

  unfoldable pub poll_snapshot : VolumeSnapshot → String → Exec Bool
  unfolding is_ready
  poll_snapshot vol_snap ver = do
    src ←
        ask (Call.get_snapshot ver vol_snap.meta.namespace vol_snap.meta.name)
          (λ h. p.get_snapshot h ver vol_snap.meta.namespace vol_snap.meta.name)
    is_ready src.ready_to_use

  unfoldable pub wait_until_vol_snap_ready_to_use :
      VolumeSnapshot → String → Backoff → Exec (Unit {0})
  wait_until_vol_snap_ready_to_use vol_snap ver retry_backoff =
      p.exponential_backoff retry_backoff (poll_snapshot vol_snap ver)

  -- What the goroutine sends on the channel, in order; `none` is a reply that does not arrive
  -- before the receiver's time is up.
  unfoldable pub exec_in_container : ExecOptions → Exec (List (Option ExecReply))
  exec_in_container op = do
    reply ←
        ask (Call.exec op.namespace op.pod_name op.container_name op.command)
          (λ h. ok (p.exec h op.namespace op.pod_name op.container_name op.command))
    pure (
        if op.pod_name == "" || op.container_name == ""
        then some (record { error = some empty_pod_or_container }) ∷ reply ∷ []
        else reply ∷ [])

  -- The `select` between the first value on the channel and the timer.
  unfoldable pub receive : ExecOptions → List (Option ExecReply) → Exec (Unit {0})
  receive op (some r ∷ rest) = on_option r.error (pure tt) raise
  receive op (none ∷ rest) = raise (exec_timeout op.container_name op.pod_name)
  receive op [] = raise (exec_timeout op.container_name op.pod_name)

  unfoldable pub exec_in_pod : ExecOptions → Exec (Unit {0})
  unfolding exec_in_container receive
  exec_in_pod op = do sent ← exec_in_container op; receive op sent
