-- ===== src/Collector/Exec/Keeps.antt =====
-- Invariants of the actions of a collection: the rules of `Action.Keeps`, and that for a call.
use tvk_plugins.Prelude.{String, List, [], ◌∷◌, ◌++◌, ◌≡◌, refl}
use tvk_plugins.Kube.Calls.{Result, ok, err}
use tvk_plugins.Action.Triple.{Triple, After}
pub use tvk_plugins.Action.Keeps.{
  Keeps, Keeps-modify, Keeps-bind, Keeps-try, Keeps-on_result, Keeps-on_option, Keeps-if,
  Keeps-lift, Keeps-lift-bind, Keeps-pure, Keeps-gets, Keeps-raise,
}
use tvk_plugins.Collector.Calls.{Call}
use tvk_plugins.Collector.Exec.{State, ask}

abbrev pub ocp_config_ns : String
ocp_config_ns = "openshift-ingress-operator"

-- `P` survives a call that satisfies `Q`, and the namespace that a collection may add.
pub record Stable (P : State → Type 0) (Q : Call → Type 0) : Type 0 where
  pub call : (s : State) (c : Call) → Q c → P s → P (record s { calls = c ∷ s.calls })
  pub ocp : (s : State) → P s → P (record s { namespaces = s.namespaces ++ (ocp_config_ns ∷ []) })

module _ {A : Type 0} where
  pub Keeps-ask :
      {P : State → Type 0} {Q : Call → Type 0} (stable : Stable P Q) (c : Call)
      (reply : List Call → Result A)
      → Q c
      → Keeps P (ask c reply)
  unfolding ask
  Keeps-ask stable c reply q = record { at = λ s h. stable.call s c q h }

  -- An action that leaves the state alone.
  pub Keeps-read : {P : State → Type 0} (read : State → Result A) → Keeps P (λ s. (read s, s))
  Keeps-read read = record { at = λ s h. h }

  asked :
      {P : State → Type 0} {Q : Call → Type 0} (stable : Stable P Q) (c : Call)
      (reply : List Call → Result A) (s : State) (r : Result A)
      → Q c
      → reply s.calls ≡ r
      → P s
      → After r
          (record s { calls = c ∷ s.calls })
          (λ a t. P t × (h : List Call) × (t.calls ≡ c ∷ h) × (reply h ≡ ok a))
          P
  asked stable c reply s (ok a) q e h = (stable.call s c q h, s.calls, refl, e)
  asked stable c reply s (err x) q e h = stable.call s c q h

  -- A call, with where its reply comes from.
  pub Triple-ask :
      {P : State → Type 0} {Q : Call → Type 0} (stable : Stable P Q) (c : Call)
      (reply : List Call → Result A)
      → Q c
      → Triple P
          (ask c reply)
          (λ a t. P t × (h : List Call) × (t.calls ≡ c ∷ h) × (reply h ≡ ok a))
          P
  unfolding ask
  Triple-ask stable c reply q = record {
    at = λ s h. asked stable c reply s (reply s.calls) q refl h;
  }

pub ruleset keeps_rules = (
  Keeps-ask, Keeps-bind, Keeps-try, Keeps-on_result, Keeps-on_option, Keeps-if, Keeps-lift,
  Keeps-pure, Keeps-gets, Keeps-raise,
)
