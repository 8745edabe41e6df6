-- ===== src/Action/Keeps.antt =====
-- Invariants of actions, one rule for each way to build an action: `m` keeps `P` whether it returns
-- or fails.
use tvk_plugins.Prelude.{◌≡◌, refl, Bool, true, false, Option, none, some}
use tvk_plugins.Prelude.Tests.{if◌then◌else◌}
use tvk_plugins.Kube.Calls.{Error, Result, ok, err}
use tvk_plugins.Action.{
  Action, pure, raise, lift, gets, try, modify, continue, ◌>>=◌, on_result, on_option,
}

pub record Keeps {S A : Type 0} (P : S → Type 0) (m : Action S A) : Type 0 where
  pub at : (s : S) → P s → P (m s).1

pub Keeps-modify :
    {S : Type 0} {P : S → Type 0} (f : S → S) → ((s : S) → P s → P (f s)) → Keeps P (modify f)
unfolding modify
Keeps-modify f kept = record { at = kept }

module _ {S A : Type 0} {P : S → Type 0} where
  -- No step: a value, an error, either of the two, or a field.
  pub Keeps-lift : (result : Result A) → Keeps P (lift result)
  unfolding lift
  Keeps-lift result = record { at = λ s kept. kept }

  pub Keeps-pure : (value : A) → Keeps P (pure value)
  unfolding pure
  Keeps-pure value = record { at = λ s kept. kept }

  pub Keeps-gets : (field : S → A) → Keeps P (gets field)
  unfolding gets
  Keeps-gets field = record { at = λ s kept. kept }

  pub Keeps-raise : (e : Error) → Keeps P (raise {A = A} e)
  unfolding raise
  Keeps-raise e = record { at = λ s kept. kept }

  pub Keeps-try : (m : Action S A) → Keeps P m → Keeps P (try m)
  unfolding try
  Keeps-try m k = record { at = λ s h. k.at s h }

  -- Either branch may use how the test came out.
  pub Keeps-if :
      (test : Bool) (then_part else_part : Action S A)
      → (test ≡ true → Keeps P then_part)
      → (test ≡ false → Keeps P else_part)
      → Keeps P (if test then then_part else else_part)
  Keeps-if false then_part else_part ky kn = kn refl
  Keeps-if true then_part else_part ky kn = ky refl

module _ {S A B : Type 0} {P : S → Type 0} where
  Keeps-continue :
      (r : Result A) (f : A → Action S B) (s : S)
      → ((a : A) → Keeps P (f a))
      → P s
      → P (continue r f s).1
  Keeps-continue (ok a) f s kf h = (kf a).at s h
  Keeps-continue (err e) f s kf h = h

  pub Keeps-bind :
      (first : Action S A) (rest : A → Action S B)
      → Keeps P first
      → ((a : A) → Keeps P (rest a))
      → Keeps P (first >>= rest)
  unfolding ◌>>=◌
  Keeps-bind first rest k later = record {
    at = λ s h. Keeps-continue (first s).0 rest (first s).1 later (k.at s h);
  }

  -- A result that ends the action or goes on with its value.
  pub Keeps-lift-bind :
      (r : Result A) (rest : A → Action S B)
      → ((a : A) → r ≡ ok a → Keeps P (rest a))
      → Keeps P (lift r >>= rest)
  unfolding ◌>>=◌ lift
  Keeps-lift-bind (ok a) rest kept = record { at = λ s h. (kept a refl).at s h }
  Keeps-lift-bind (err e) rest kept = record { at = λ s h. h }

  pub Keeps-on_result :
      (r : Result A) (failure : Error → Action S B) (success : A → Action S B)
      → ((e : Error) → Keeps P (failure e))
      → ((a : A) → Keeps P (success a))
      → Keeps P (on_result r failure success)
  unfolding on_result
  Keeps-on_result (ok a) failure success kf ks = ks a
  Keeps-on_result (err e) failure success kf ks = kf e

module _ {S A B : Type 0} {P : S → Type 0} where
  pub Keeps-on_option :
      (o : Option A) (absent : Action S B) (present : A → Action S B)
      → Keeps P absent
      → ((a : A) → Keeps P (present a))
      → Keeps P (on_option o absent present)
  unfolding on_option
  Keeps-on_option none absent present ka kp = ka
  Keeps-on_option (some a) absent present ka kp = kp a

-- For the actions that every state has.
pub ruleset action_rules = (
  Keeps-bind, Keeps-try, Keeps-on_result, Keeps-on_option, Keeps-if, Keeps-lift, Keeps-pure,
  Keeps-gets, Keeps-raise,
)
