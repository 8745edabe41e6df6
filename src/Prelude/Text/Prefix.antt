-- ===== src/Prelude/Text/Prefix.antt =====
-- Paths that begin with a given text.
use Prim.Native.String.{String, ◌++◌}
use mathlib.Core.Path.{◌≡◌, sym, ◌∙◌, ap}
use mathlib.Core.Logic.{inl, inr}
use text.Mathlib.Text.{◌==◌}
use text.Mathlib.TextLemmas.{append_assoc, append-nil, append-eq-nil_iff, nil-append}
use text.Mathlib.TextEquality.{eq_iff}
use tvk_plugins.Prelude.Tests.{Bool-cases}
use tvk_plugins.Prelude.Text.{join_path}

abbrev pub Below : String → String → Type 0
Below dir path = (rest : String) × (path ≡ dir ++ rest)

pub Below-self : (dir : String) → Below dir dir
Below-self dir = ("", sym (append-nil dir))

pub Below-append : (dir path : String) (more : String) → Below dir path → Below dir (path ++ more)
Below-append dir path more (rest, e) =
    (rest ++ more, ap (λ x. x ++ more) e ∙ append_assoc dir rest more)

Below-of_empty : (dir path other : String) → path ≡ "" → Below dir path → Below dir other
Below-of_empty dir path other empty (rest, e) =
    let nothing = (append-eq-nil_iff.0 (sym e ∙ empty)).0 in
    (other, sym (nil-append other) ∙ ap (λ x. x ++ other) (sym nothing))

-- Joining an element to a path keeps where it begins.
pub Below-join : (dir path element : String) → Below dir path → Below dir (join_path path element)
unfolding join_path
Below-join dir path element below = elim (Bool-cases (path == "")) [
  | inl empty ↦ rw empty (Below-of_empty dir path element ((eq_iff path "").0 empty) below)
  | inr path_given ↦ elim (Bool-cases (element == "")) [
    | inl no_element ↦ rw (path_given, no_element) below
    | inr given ↦ rw (path_given, given) (Below-append dir path ("/" ++ element) below)
  ]
]
