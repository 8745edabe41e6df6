-- ===== src/Preflight/Resources/Suffix.antt =====
-- The suffix of a run: `CreateResourceNameSuffix`.
use Prim.Native.Char.{code}
use Prim.Native.String.{◌++◌, len}
use Prim.Native.String.append.{nil, cons}
use text.Mathlib.TextPositions.{len-append}
use tvk_plugins.Prelude.{ℕ, zero, suc, ◌≤◌, String, ◌≡◌, sym, subst, arith}
use tvk_plugins.Kube.Calls.{ok}
use tvk_plugins.Preflight.Exec.{State, pure, lift}
use tvk_plugins.Action.Inversion.{bind-ok}
use tvk_plugins.Preflight.Platform.{Platform}
use tvk_plugins.Preflight.Resources.{
  letter_bytes, letter_at, random_letters, create_resource_name_suffix,
}

-- Lower-case letters of one byte.
abbrev pub Letters : String → Type 0
Letters String.[] = Unit
Letters (String.◌∷◌ c s) =
    (len (String.◌∷◌ c String.[]) ≡ 1) × (b'a' ≤ code c) × (code c ≤ b'z') × Letters s

letter_bytes-Letters : Letters letter_bytes
letter_bytes-Letters = omega arith

Letters-append : (a b : String) → Letters a → Letters b → Letters (a ++ b)
Letters-append String.[] b h k = subst Letters (sym (nil b)) k
Letters-append (String.◌∷◌ c s) b (h1, h2, h3, h) k =
    subst Letters (sym (cons c s b)) (h1, h2, h3, Letters-append s b h k)

letter_at-Letters :
    (i : ℕ) (s l : String) → Letters s → letter_at i s ≡ ok l → (len l ≡ 1) × Letters l
unfolding letter_at
letter_at-Letters i String.[] l h e = cc
letter_at-Letters zero (String.◌∷◌ c s) l (h1, h2, h3, h) e =
    let f : String.◌∷◌ c String.[] ≡ l = cc in
    subst (λ x. (len x ≡ 1) × Letters x) f (h1, (h1, h2, h3, tt))
letter_at-Letters (suc i) (String.◌∷◌ c s) l (h1, h2, h3, h) e = letter_at-Letters i s l h e

Word : ℕ → String → Type 0
Word n t = (len t ≡ n) × Letters t

append-Word :
    (n : ℕ) (l rest t : String) → Word 1 l → Word n rest → ok (l ++ rest) ≡ ok t → Word (suc n) t
unfolding Word
append-Word n l rest t (h1, k1) (h2, k2) e =
    let f : l ++ rest ≡ t = cc in
    subst (λ x. (len x ≡ suc n) × Letters x) f
      (grind (arith, len-append l rest), Letters-append l rest k1 k2)

module _ (p : Platform) where
  random_letters-Letters :
      (n : ℕ) (s : State) (t : String) → (random_letters p n s).0 ≡ ok t → Word n t
  unfolding random_letters Word pure lift
  random_letters-Letters zero s t h =
      let f : "" ≡ t = cc in subst (λ x. (len x ≡ 0) × Letters x) f (omega arith, tt)
  random_letters-Letters (suc n) s t h =
      let (i, e1, h1) = bind-ok _ _ s h in
      let (l, e2, h2) = bind-ok _ _ _ h1 in
      let (rest, e3, h3) = bind-ok _ _ _ h2 in
      append-Word n l rest t (letter_at-Letters i letter_bytes l letter_bytes-Letters e2)
        (random_letters-Letters n _ rest e3) h3

  -- A suffix that is generated has six bytes, all lower-case letters.
  pub suffix-Letters :
      (s : State) (t : String)
      → (create_resource_name_suffix p s).0 ≡ ok t
      → (len t ≡ 6) × Letters t
  unfolding create_resource_name_suffix Word
  suffix-Letters s t h = random_letters-Letters 6 s t h
