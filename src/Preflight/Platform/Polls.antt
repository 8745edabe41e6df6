-- ===== src/Preflight/Platform/Polls.antt =====
-- What the program relies on of `k8swait.ExponentialBackoff`: it acts only by running its condition,
-- and it returns no error only right after the condition returned true.
use tvk_plugins.Prelude.{◌≡◌, Bool, true}
use tvk_plugins.Kube.Calls.{ok}
use tvk_plugins.Preflight.Exec.{State, Exec}
use tvk_plugins.Preflight.Exec.Keeps.{Keeps}
use tvk_plugins.Preflight.Platform.{Platform, Backoff}

pub record Polls (p : Platform) : Type 1 where
  pub keeps :
      (P : State → Type 0) (b : Backoff) (condition : Exec Bool)
      → Keeps P condition
      → Keeps P (p.exponential_backoff b condition)
  pub done :
      (b : Backoff) (condition : Exec Bool) (s : State)
      → (p.exponential_backoff b condition s).0 ≡ ok tt
      → (t : State) × ((condition t).0 ≡ ok true)
        × ((condition t).1 ≡ (p.exponential_backoff b condition s).1)
