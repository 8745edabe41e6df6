-- ===== src/Collector/Exec.antt =====
-- The state of a collection, and its actions.
pub mod Keeps
use tvk_plugins.Prelude.{String, List, ◌∷◌}
use tvk_plugins.Kube.Calls.{Result}
use tvk_plugins.Action.{Action}
unfoldable pub use tvk_plugins.Action.{
  pure, raise, lift, gets, try, modify, continue, ◌>>=◌, ◌>>◌, on_option, on_result,
}
use tvk_plugins.Collector.Calls.{Call}

-- `namespaces` is the field `l.Namespaces`, which a collection extends; `calls` has the newest call
-- first.
pub record State : Type 0 where
  pub namespaces : List String
  pub calls : List Call

abbrev pub Exec : Type 0 → Type 0
Exec A = Action State A

-- One call that leaves the program.
unfoldable pub ask : {A : Type 0} → Call → (List Call → Result A) → Exec A
ask c reply s = (reply s.calls, record s { calls = c ∷ s.calls })
