-- ===== src/Preflight/Run/Tally.antt =====
-- Actions that return whether a check passed, and log a failure exactly when it did not.
use tvk_plugins.Prelude.{Bool, true, false, ◌&&◌, List, [], ◌∷◌, ◌≡◌, ◌∙◌, refl, ap, sym}
use tvk_plugins.Prelude.Tests.{if◌then◌else◌}
use tvk_plugins.Kube.Calls.{Call, Result, ok, err}
use tvk_plugins.Preflight.Exec.{
  State, Check, Verdict, Exec, pure, try, log_verdict, continue, ◌>>=◌, ◌>>◌, on_result,
}
use tvk_plugins.Preflight.Exec.Keeps.{Keeps, Stable}
use tvk_plugins.Preflight.Run.{report}

-- Every logged verdict is a success.
unfoldable pub passed : List Verdict → Bool
passed [] = true
passed (v ∷ vs) = v.success && passed vs

abbrev pub Tally : Bool → State → Type 0
Tally c s = passed s.verdicts ≡ c

pub Tally-Stable : (c : Bool) (Q : Call → Type 0) → Stable (Tally c) Q
Tally-Stable c Q = record { call = λ s x q h. h; fields = λ s a b h. h }

-- `m` returns a Boolean, and logs a failure exactly when it is false.
pub record Tracks (m : Exec Bool) : Type 0 where
  pub at :
      (s : State)
      → (b : Bool) × ((m s).0 ≡ ok b) × (passed (m s).1.verdicts ≡ (passed s.verdicts && b))

pub and-true : (b : Bool) → (b && true) ≡ b
and-true true = refl
and-true false = refl

pub and-false : (b : Bool) → (b && false) ≡ false
and-false true = refl
and-false false = refl

pub Tracks-pure-true : Tracks (pure true)
unfolding pure
Tracks-pure-true = record { at = λ s. (true, refl, sym (and-true _)) }

module _ (s : State) (c : Check) where
  reported :
      (r : Result (Unit {0})) (t : State)
      → passed t.verdicts ≡ passed s.verdicts
      → (b : Bool) × ((on_result r
            (λ e. log_verdict c false >> pure false)
            (λ _. log_verdict c true >> pure true)
            t).0
          ≡ ok b)
        × (passed
              (on_result r
                (λ e. log_verdict c false >> pure false)
                (λ _. log_verdict c true >> pure true)
                t).1.verdicts
            ≡ (passed s.verdicts && b))
  unfolding on_result passed ◌>>=◌ log_verdict
  reported (ok a) t h = (true, refl, h ∙ sym (and-true _))
  reported (err e) t h = (false, refl, sym (and-false _))

  -- The same, where the success is not logged here.
  failure_reported :
      (r : Result (Unit {0})) (t : State)
      → passed t.verdicts ≡ passed s.verdicts
      → (b : Bool) × ((on_result r (λ e. log_verdict c false >> pure false) (λ _. pure true) t).0
          ≡ ok b)
        × (passed
              (on_result r (λ e. log_verdict c false >> pure false) (λ _. pure true) t).1.verdicts
            ≡ (passed s.verdicts && b))
  unfolding on_result passed ◌>>=◌ log_verdict
  failure_reported (ok a) t h = (true, refl, h ∙ sym (and-true _))
  failure_reported (err e) t h = (false, refl, sym (and-false _))

-- An action that keeps every tally, reported.
pub Tracks-report :
    (c : Check) (m : Exec (Unit {0})) → ((b : Bool) → Keeps (Tally b) m) → Tracks (report c m)
unfolding report ◌>>=◌
Tracks-report c m k = record {
  at = λ s. reported s c (m s).0 (m s).1 ((k (passed s.verdicts)).at s refl);
}

pub Tracks-report_failure :
    (c : Check) (m : Exec (Unit {0}))
    → ((b : Bool) → Keeps (Tally b) m)
    → Tracks (do r ← try m; on_result r (λ e. log_verdict c false >> pure false) (λ _. pure true))
unfolding ◌>>=◌
Tracks-report_failure c m k = record {
  at = λ s. failure_reported s c (m s).0 (m s).1 ((k (passed s.verdicts)).at s refl);
}

pub Tracks-if :
    (b : Bool) (m n : Exec Bool)
    → (b ≡ true → Tracks m)
    → (b ≡ false → Tracks n)
    → Tracks (if b then m else n)
Tracks-if true m n km kn = km refl
Tracks-if false m n km kn = kn refl

pub Tally-success : (c : Check) (x : Bool) → Keeps (Tally x) (log_verdict c true)
unfolding log_verdict passed
Tally-success c x = record { at = λ s h. h }

-- The tally at the end is the result.
pub record Ends (x : Bool) (m : Exec Bool) : Type 0 where
  pub at :
      (s : State)
      → passed s.verdicts ≡ x
      → (b : Bool) × ((m s).0 ≡ ok b) × (passed (m s).1.verdicts ≡ b)

pub Ends-pure : (b : Bool) {x : Bool} → x ≡ b → Ends x (pure b)
unfolding pure
Ends-pure b e = record { at = λ s h. (b, refl, h ∙ e) }

module _ {A : Type 0} (k : A → Exec Bool) {x : Bool} where
  Ends-continue :
      (r : Result A) (a : A) (t : State)
      → r ≡ ok a
      → Ends x (k a)
      → passed t.verdicts ≡ x
      → (b : Bool) × ((continue r k t).0 ≡ ok b) × (passed (continue r k t).1.verdicts ≡ b)
  Ends-continue (ok a') a t e h q = let f : a' ≡ a = cc in rw f (h.at t q)
  Ends-continue (err x) a t e h q = cc

pub Ends-bind :
    {x : Bool} (m : Exec Bool) (k : Bool → Exec Bool)
    → Tracks m
    → ((b : Bool) → Ends (x && b) (k b))
    → Ends x (m >>= k)
unfolding ◌>>=◌
Ends-bind {x} m k km kk = record {
  at = λ s h.
      (let (b, e, q) = km.at s in
        Ends-continue k {x = x && b} (m s).0 b (m s).1 e (kk b) (q ∙ ap (λ y. y && b) h));
}

-- A step that can fail before the reported action.
module _ {A : Type 0} (s : State) (c : Check) (k : A → Exec Bool)
    (kk : (a : A) → Tracks (k a)) where
  first_reported :
      (r : Result A) (t : State)
      → passed t.verdicts ≡ passed s.verdicts
      → (b : Bool) × ((on_result r (λ e. log_verdict c false >> pure false) k t).0 ≡ ok b)
        × (passed (on_result r (λ e. log_verdict c false >> pure false) k t).1.verdicts
            ≡ (passed s.verdicts && b))
  unfolding on_result passed ◌>>=◌ log_verdict
  first_reported (ok a) t h = let (b, e, q) = (kk a).at t in (b, e, q ∙ ap (λ y. y && b) h)
  first_reported (err e) t h = (false, refl, sym (and-false _))

pub Tracks-first :
    {A : Type 0} (c : Check) (m : Exec A) (k : A → Exec Bool)
    → ((b : Bool) → Keeps (Tally b) m)
    → ((a : A) → Tracks (k a))
    → Tracks (do r ← try m; on_result r (λ e. log_verdict c false >> pure false) k)
unfolding ◌>>=◌
Tracks-first c m k km kk = record {
  at = λ s. first_reported s c k kk (m s).0 (m s).1 ((km (passed s.verdicts)).at s refl);
}
