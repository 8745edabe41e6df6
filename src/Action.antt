-- ===== src/Action.antt =====
-- Go functions that change a state and may return an error: an action returns the `error` result as
-- a `Result`, and what it changed before the error stays changed.
pub mod Keeps
pub mod Inversion
pub mod Triple
use tvk_plugins.Prelude.{Option, none, some}
use tvk_plugins.Kube.Calls.{Error, Result, ok, err}

abbrev pub Action : Type 0 → Type 0 → Type 0
Action S A = S → Result A × S

module _ {S A : Type 0} where
  unfoldable pub pure : A → Action S A
  pure a s = (ok a, s)

  unfoldable pub raise : Error → Action S A
  raise e s = (err e, s)

  unfoldable pub lift : Result A → Action S A
  lift r s = (r, s)

  unfoldable pub gets : (S → A) → Action S A
  gets f s = (ok (f s), s)

  -- Go's `err := f()` where both outcomes go on.
  unfoldable pub try : Action S A → Action S (Result A)
  try m s = let (r, s') = m s in (ok r, s')

unfoldable pub modify : {S : Type 0} → (S → S) → Action S (Unit {0})
modify f s = (ok tt, f s)

module _ {S A B : Type 0} where
  abbrev pub continue : Result A → (A → Action S B) → Action S B
  continue (ok a) f s = f a s
  continue (err e) f s = (err e, s)

  infixl 10 ◌>>=◌ ◌>>◌
  unfoldable pub ◌>>=◌ : Action S A → (A → Action S B) → Action S B
  unfolding pure raise lift gets try modify
  ◌>>=◌ m f s = let (r, s') = m s in continue r f s'

  abbrev pub ◌>>◌ : Action S A → Action S B → Action S B
  m >> k = m >>= λ _. k

  -- A pointer or an error that may be nil.
  unfoldable pub on_option : Option A → Action S B → (A → Action S B) → Action S B
  on_option none absent present = absent
  on_option (some a) absent present = present a

  -- `if err != nil { … } else { … }`
  unfoldable pub on_result : Result A → (Error → Action S B) → (A → Action S B) → Action S B
  on_result (ok a) failure success = success a
  on_result (err e) failure success = failure e
