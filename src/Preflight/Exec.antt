-- ===== src/Preflight/Exec.antt =====
-- The state that a preflight command works on, and its actions. Go's `error` result is the `Result`
-- of an action; what a function changed before it returned an error stays changed.
pub mod Keeps
use tvk_plugins.Action.{Action}
unfoldable pub use tvk_plugins.Action.{
  pure, raise, lift, gets, try, modify, continue, ◌>>=◌, ◌>>◌, on_option, on_result,
}
use tvk_plugins.Prelude.{String, Bool, Option, none, some, List, ◌∷◌}
use tvk_plugins.Kube.Calls.{Call, Error, Result, ok, err}

-- The checks of `PerformPreflightChecks`, for the lines that it logs about them.
pub data Check : Type 0 where
  kubectl cluster_access helm kubernetes_version rbac volume_snapshot_crds snapshot_class : Check
  pod_capability dns volume_snapshot : Check

-- A logged line "Preflight check for … is successful" or "Preflight check for … failed".
pub record Verdict : Type 0 where
  pub check : Check
  pub success : Bool

-- `snapshot_class` is the field `o.SnapshotClass`, which a check resets; the other two are the
-- package variables `storageVolSnapClass` and `resNameSuffix`. `calls` and `verdicts` have the
-- newest entry first.
pub record State : Type 0 where
  pub snapshot_class : String
  pub storage_vol_snap_class : String
  pub res_name_suffix : String
  pub calls : List Call
  pub verdicts : List Verdict

abbrev pub Exec : Type 0 → Type 0
Exec A = Action State A

-- One call that leaves the program.
unfoldable pub ask : {A : Type 0} → Call → (List Call → Result A) → Exec A
ask c reply s = (reply s.calls, record s { calls = c ∷ s.calls })

unfoldable pub log_verdict : Check → Bool → Exec (Unit {0})
unfolding modify
log_verdict c b =
    modify (λ s. record s { verdicts = record { check = c; success = b } ∷ s.verdicts })
