-- ===== src/Preflight/Exec/Keeps.antt =====
-- Invariants of the preflight actions: the rules of `Action.Keeps`, and those for a call and for a
-- logged verdict.
use tvk_plugins.Prelude.{◌≡◌, Bool, String, List, ◌∷◌}
use tvk_plugins.Kube.Calls.{Call, Result}
pub use tvk_plugins.Action.Keeps.{
  Keeps, Keeps-bind, Keeps-try, Keeps-on_result, Keeps-on_option, Keeps-if, Keeps-lift, Keeps-pure,
  Keeps-gets, Keeps-raise,
}
use tvk_plugins.Preflight.Exec.{State, Check, Verdict, Exec, ask, try, log_verdict, ◌>>=◌}

-- `P` survives a call that satisfies `Q`, and an assignment to `o.SnapshotClass` or to
-- `storageVolSnapClass`.
pub record Stable (P : State → Type 0) (Q : Call → Type 0) : Type 0 where
  pub call : (s : State) (c : Call) → Q c → P s → P (record s { calls = c ∷ s.calls })
  pub fields :
      (s : State) (a b : String)
      → P s
      → P (record s { snapshot_class = a; storage_vol_snap_class = b })

-- `P` does not look at the verdicts.
pub record IsVerdictFree (P : State → Type 0) : Type 0 where
  pub verdicts : (s : State) (vs : List Verdict) → P s → P (record s { verdicts = vs })

-- The logged verdicts are `vs`.
abbrev pub Logged : List Verdict → State → Type 0
Logged vs s = s.verdicts ≡ vs

module _ {A : Type 0} where
  pub Keeps-ask :
      {P : State → Type 0} {Q : Call → Type 0} (stable : Stable P Q) (c : Call)
      (reply : List Call → Result A)
      → Q c
      → Keeps P (ask c reply)
  unfolding ask
  Keeps-ask stable c reply q = record { at = λ s h. stable.call s c q h }

pub Keeps-log_verdict :
    {P : State → Type 0} (free : IsVerdictFree P) (c : Check) (b : Bool) → Keeps P (log_verdict c b)
unfolding log_verdict
Keeps-log_verdict free c b = record { at = λ s h. free.verdicts s _ h }

pub Logged-Stable : (vs : List Verdict) (Q : Call → Type 0) → Stable (Logged vs) Q
Logged-Stable vs Q = record { call = λ s c q h. h; fields = λ s a b h. h }

pub ruleset keeps_rules = (
  Keeps-ask, Keeps-bind, Keeps-try, Keeps-on_result, Keeps-on_option, Keeps-if, Keeps-lift,
  Keeps-pure, Keeps-gets, Keeps-raise,
)

-- A tried call, with the reply at hand in what follows.
pub Keeps-try-ask :
    {A B : Type 0} {P : State → Type 0} {Q : Call → Type 0} (stable : Stable P Q) (c : Call)
    (reply : List Call → Result A) (f : Result A → Exec B)
    → Q c
    → ((h : List Call) → Keeps P (f (reply h)))
    → Keeps P (try (ask c reply) >>= f)
unfolding ◌>>=◌ ask
Keeps-try-ask stable c reply f q kf = record { at = λ s h. (kf s.calls).at _ (stable.call s c q h) }
