-- ===== src/Action/Triple.antt =====
-- What holds after an action: `post` where it returned a value, `fail` where it returned an error.
use tvk_plugins.Prelude.{◌≡◌, refl, subst, Bool, true, false}
use tvk_plugins.Prelude.Tests.{if◌then◌else◌}
use tvk_plugins.Kube.Calls.{Error, Result, ok, err, ok-path}
use tvk_plugins.Action.{Action, pure, raise, try, continue, ◌>>=◌, on_result}
use tvk_plugins.Action.Keeps.{Keeps}

module _ {S A : Type 0} where
  abbrev pub After : Result A → S → (A → S → Type 0) → (S → Type 0) → Type 0
  After (ok a) s post fail = post a s
  After (err e) s post fail = fail s

  pub record Triple (pre : S → Type 0) (m : Action S A) (post : A → S → Type 0) (fail : S → Type 0)
      : Type 0 where
    pub at : (s : S) → pre s → After (m s).0 (m s).1 post fail

  After-both : (P : S → Type 0) (r : Result A) (s : S) → P s → After r s (λ a. P) P
  After-both P (ok a) s h = h
  After-both P (err e) s h = h

  -- An invariant.
  pub Triple-of_Keeps : {P : S → Type 0} (m : Action S A) → Keeps P m → Triple P m (λ a. P) P
  Triple-of_Keeps {P} m k = record { at = λ s h. After-both P (m s).0 (m s).1 (k.at s h) }

  pub Triple-pure : {P : S → Type 0} {fail : S → Type 0} (a : A) → Triple P (pure a) (λ b. P) fail
  unfolding pure
  Triple-pure a = record { at = λ s h. h }

  pub Triple-return :
      {pre fail : S → Type 0} {post : A → S → Type 0} (a : A)
      → ((s : S) → pre s → post a s)
      → Triple pre (pure a) post fail
  unfolding pure
  Triple-return a h = record { at = h }

  After-frame :
      (post : A → S → Type 0) (fail F : S → Type 0) (r : Result A) (s : S)
      → After r s post fail
      → F s
      → After r s (λ a t. post a t × F t) fail
  After-frame post fail F (ok a) s h f = (h, f)
  After-frame post fail F (err e) s h f = h

  -- What the action keeps besides.
  pub Triple-frame :
      {pre fail F : S → Type 0} {post : A → S → Type 0} (m : Action S A)
      → Triple pre m post fail
      → Keeps F m
      → Triple (λ s. pre s × F s) m (λ a s. post a s × F s) fail
  Triple-frame {pre} {fail} {F} {post} m t k = record {
    at = λ s h. After-frame post fail F (m s).0 (m s).1 (t.at s h.0) (k.at s h.1);
  }

  pub Triple-if :
      {pre fail : S → Type 0} {post : A → S → Type 0} (test : Bool) (m k : Action S A)
      → (test ≡ true → Triple pre m post fail)
      → (test ≡ false → Triple pre k post fail)
      → Triple pre (if test then m else k) post fail
  Triple-if true m k ty tn = ty refl
  Triple-if false m k ty tn = tn refl

module _ {S A B : Type 0} where
  After-bind :
      {fail : S → Type 0} {mid : A → S → Type 0} {post : B → S → Type 0} (r : Result A)
      (k : A → Action S B) (s : S)
      → ((a : A) → Triple (mid a) (k a) post fail)
      → After r s mid fail
      → After (continue r k s).0 (continue r k s).1 post fail
  After-bind (ok a) k s t h = (t a).at s h
  After-bind (err e) k s t h = h

  pub Triple-bind :
      {pre fail : S → Type 0} {mid : A → S → Type 0} {post : B → S → Type 0} (m : Action S A)
      (k : A → Action S B)
      → Triple pre m mid fail
      → ((a : A) → Triple (mid a) (k a) post fail)
      → Triple pre (m >>= k) post fail
  unfolding ◌>>=◌
  Triple-bind m k t later = record { at = λ s h. After-bind (m s).0 k (m s).1 later (t.at s h) }

module _ {S A : Type 0} where
  -- From a stronger condition before.
  pub Triple-from :
      {pre fail stronger : S → Type 0} {post : A → S → Type 0} (m : Action S A)
      → ((s : S) → stronger s → pre s)
      → Triple pre m post fail
      → Triple stronger m post fail
  Triple-from m w t = record { at = λ s h. t.at s (w s h) }

  -- To a weaker condition after.
  After-to :
      (fail weaker_fail : S → Type 0) (post weaker : A → S → Type 0) (r : Result A) (s : S)
      → ((a : A) (t : S) → post a t → weaker a t)
      → ((t : S) → fail t → weaker_fail t)
      → After r s post fail
      → After r s weaker weaker_fail
  After-to fail weaker_fail post weaker (ok a) s w f h = w a s h
  After-to fail weaker_fail post weaker (err e) s w f h = f s h

  pub Triple-to :
      {pre fail weaker_fail : S → Type 0} {post weaker : A → S → Type 0} (m : Action S A)
      → Triple pre m post fail
      → ((a : A) (t : S) → post a t → weaker a t)
      → ((t : S) → fail t → weaker_fail t)
      → Triple pre m weaker weaker_fail
  Triple-to {pre} {fail} {weaker_fail} {post} {weaker} m t w f = record {
    at = λ s h. After-to fail weaker_fail post weaker (m s).0 (m s).1 w f (t.at s h);
  }

module _ {S A : Type 0} where
  After-of_ok :
      (post : A → S → Type 0) (fail : S → Type 0) (r : Result A) (t : S)
      → ((a : A) → r ≡ ok a → post a t)
      → fail t
      → After r t post fail
  After-of_ok post fail (ok a) t h f = h a refl
  After-of_ok post fail (err e) t h f = f

  -- From what holds where the action returns a value.
  pub Triple-of_ok :
      {pre : S → Type 0} {post : A → S → Type 0} (m : Action S A)
      → ((s : S) → pre s → (a : A) → (m s).0 ≡ ok a → post a (m s).1)
      → Triple pre m post (λ s. Unit {0})
  Triple-of_ok {pre} {post} m h = record {
    at = λ s before. After-of_ok post (λ s. Unit {0}) (m s).0 (m s).1 (h s before) tt;
  }

  After-value :
      (post : A → S → Type 0) (fail : S → Type 0) (r : Result A) (t : S) (a : A)
      → r ≡ ok a
      → After r t post fail
      → post a t
  After-value post fail (ok b) t a e h = subst (λ c. post c t) (ok-path e) h
  After-value post fail (err x) t a e h = cc

  -- What a triple says of an action that returned a value.
  pub Triple-ok :
      {pre fail : S → Type 0} {post : A → S → Type 0} (m : Action S A) (s : S) (a : A)
      → Triple pre m post fail
      → pre s
      → (m s).0 ≡ ok a
      → post a (m s).1
  Triple-ok {pre} {fail} {post} m s a t h e = After-value post fail (m s).0 (m s).1 a e (t.at s h)

  -- With a fact that does not depend on the state.
  pub Triple-given :
      {F : Type 0} {pre fail : S → Type 0} {post : A → S → Type 0} (m : Action S A)
      → (F → Triple pre m post fail)
      → Triple (λ s. pre s × F) m post fail
  Triple-given m h = record { at = λ s (before, fact). (h fact).at s before }

  pub Triple-raise :
      {fail : S → Type 0} {post : A → S → Type 0} (e : Error) → Triple fail (raise e) post fail
  unfolding raise
  Triple-raise e = record { at = λ s h. h }

module _ {S A B : Type 0} where
  After-try :
      {fail broken : S → Type 0} {mid : A → S → Type 0} {post : B → S → Type 0} (r : Result A)
      (failure : Error → Action S B) (success : A → Action S B) (u : S)
      → ((e : Error) → Triple broken (failure e) post fail)
      → ((a : A) → Triple (mid a) (success a) post fail)
      → After r u mid broken
      → After (on_result r failure success u).0 (on_result r failure success u).1 post fail
  unfolding on_result
  After-try (ok a) failure success u tf ts h = (ts a).at u h
  After-try (err e) failure success u tf ts h = (tf e).at u h

  -- `if err := m(); err != nil { … } else { … }`
  pub Triple-try :
      {pre fail broken : S → Type 0} {mid : A → S → Type 0} {post : B → S → Type 0} (m : Action S A)
      (failure : Error → Action S B) (success : A → Action S B)
      → Triple pre m mid broken
      → ((e : Error) → Triple broken (failure e) post fail)
      → ((a : A) → Triple (mid a) (success a) post fail)
      → Triple pre (try m >>= λ r. on_result r failure success) post fail
  unfolding ◌>>=◌
  Triple-try {pre} {fail} {broken} {mid} {post} m failure success t tf ts = record {
    at = λ s h. After-try (m s).0 failure success (m s).1 tf ts (t.at s h);
  }
