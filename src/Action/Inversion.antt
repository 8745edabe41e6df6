-- ===== src/Action/Inversion.antt =====
-- Taking apart an action that returned no error.
use tvk_plugins.Prelude.{◌≡◌, refl}
use tvk_plugins.Kube.Calls.{Result, ok, err}
use tvk_plugins.Action.{Action, continue, ◌>>=◌}

module _ {S A B : Type 0} where
  continue-ok :
      (r : Result A) (k : A → Action S B) (t : S) {b : B}
      → (continue r k t).0 ≡ ok b
      → (a : A) × (r ≡ ok a) × ((k a t).0 ≡ ok b)
  continue-ok (ok a) k t h = (a, refl, h)
  continue-ok (err e) k t h = cc

  -- Every part of a sequence returned no error.
  pub bind-ok :
      (m : Action S A) (k : A → Action S B) (s : S) {b : B}
      → ((m >>= k) s).0 ≡ ok b
      → (a : A) × ((m s).0 ≡ ok a) × ((k a (m s).1).0 ≡ ok b)
  unfolding ◌>>=◌
  bind-ok m k s h = continue-ok (m s).0 k (m s).1 h

  -- An action that returns a value hands it on.
  pub bind-eq :
      (m : Action S A) (k : A → Action S B) (s : S) {a : A}
      → (m s).0 ≡ ok a
      → (m >>= k) s ≡ k a (m s).1
  unfolding ◌>>=◌
  bind-eq m k s h = rw h refl
