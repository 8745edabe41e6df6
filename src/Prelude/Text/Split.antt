-- ===== src/Prelude/Text/Split.antt =====
-- Taking texts apart at a separator.
use Prim.Native.Char.{Char, code}
use Prim.Native.String
use mathlib.Core.Path.{◌≡◌, refl, sym, ◌∙◌, ap, subst}
use mathlib.Core.Bool.{true, false}
use mathlib.Core.List.{[], ◌∷◌}
use text.Mathlib.TextLemmas.{nil-append, cons-append}
use tvk_plugins.Prelude.{ℕ, String}
use tvk_plugins.Prelude.Tests.{nat_eq}
use tvk_plugins.Prelude.Text.{split}

-- No character is the separator.
abbrev pub IsFree : ℕ → String → Type 0
IsFree sep String.[] = Unit
IsFree sep (String.◌∷◌ c s) = (nat_eq (code c) sep ≡ false) × IsFree sep s

-- A text without the separator is one part.
pub split-IsFree : (sep : ℕ) (s : String) → IsFree sep s → split s sep ≡ s ∷ []
unfolding split
split-IsFree sep String.[] free = refl
split-IsFree sep (String.◌∷◌ c s) (other, free) = rw (other, split-IsFree sep s free) refl

split-cons :
    (sep : ℕ) (c : Char) (s : String)
    → nat_eq (code c) sep ≡ true
    → split (String.◌∷◌ c s) sep ≡ "" ∷ split s sep
unfolding split
split-cons sep c s same = rw same refl

-- The first part ends at the first separator.
pub split-append :
    (sep : ℕ) (c : Char) (a b : String)
    → nat_eq (code c) sep ≡ true
    → IsFree sep a
    → split (String.◌++◌ a (String.◌∷◌ c b)) sep ≡ a ∷ split b sep
unfolding split
split-append sep c String.[] b same free =
    ap (λ x. split x sep) (nil-append (String.◌∷◌ c b)) ∙ split-cons sep c b same
split-append sep c (String.◌∷◌ x a) b same (other, free) =
    ap (λ x. split x sep) (cons-append x a (String.◌∷◌ c b))
    ∙ rw (other, split-append sep c a b same free) refl

-- The same with the separator as text.
pub split-around :
    (sep : ℕ) (c : Char) (a b : String)
    → nat_eq (code c) sep ≡ true
    → IsFree sep a
    → split (String.◌++◌ a (String.◌++◌ (String.◌∷◌ c "") b)) sep ≡ a ∷ split b sep
split-around sep c a b same free =
    ap (λ x. split (String.◌++◌ a x) sep) (cons-append c "" b ∙ ap (String.◌∷◌ c) (nil-append b))
    ∙ split-append sep c a b same free

pub IsFree-append :
    (sep : ℕ) (a b : String) → IsFree sep a → IsFree sep b → IsFree sep (String.◌++◌ a b)
IsFree-append sep String.[] b fa fb = subst (IsFree sep) (sym (nil-append b)) fb
IsFree-append sep (String.◌∷◌ c a) b (other, fa) fb =
    subst (IsFree sep) (sym (cons-append c a b)) (other, IsFree-append sep a b fa fb)
