-- ===== src/Cmd/Inversion.antt =====
-- Taking apart an accepted outcome.
use tvk_plugins.Prelude.{◌≡◌, refl, subst, Bool, true, false, arith}
use tvk_plugins.Prelude.Tests.{if◌then◌else◌}
use tvk_plugins.Cmd.Flags.{Outcome, done, refused, continue, ◌>>=◌}

module _ {A B : Type 0} where
  continue-done :
      (m : Outcome A) (k : A → Outcome B) {b : B}
      → continue m k ≡ done b
      → (a : A) × (m ≡ done a) × (k a ≡ done b)
  unfolding continue
  continue-done (done a) k h = (a, refl, h)
  continue-done (refused e) k h = cc

  -- Every part of a sequence was accepted.
  pub bind-done :
      (m : Outcome A) (k : A → Outcome B) {b : B}
      → (m >>= k) ≡ done b
      → (a : A) × (m ≡ done a) × (k a ≡ done b)
  unfolding ◌>>=◌
  bind-done m k h = continue-done m k h

pub if-done {ℓ} :
    {A : Type 0} (P : A → Type ℓ) (b : Bool) (a a' : A) (m : Outcome A)
    → (if b then done a else m) ≡ done a'
    → P a
    → (m ≡ done a' → P a')
    → P a'
if-done P true a a' m e h k = let f : a ≡ a' = cc in subst P f h
if-done P false a a' m e h k = k e

pub done-path {ℓ} : {A : Type 0} (P : A → Type ℓ) (a a' : A) → done a ≡ done a' → P a → P a'
done-path P a a' e h = let f : a ≡ a' = cc in subst P f h

pub if-true-done {ℓ} :
    {A : Type 0} (P : A → Type ℓ) (b : Bool) (a a' : A) (m : Outcome A)
    → b ≡ true
    → (if b then done a else m) ≡ done a'
    → P a
    → P a'
if-true-done P true a a' m t e h = done-path P a a' e h
if-true-done P false a a' m t e h = absurd (ground arith)
