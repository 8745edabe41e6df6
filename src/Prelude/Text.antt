-- ===== src/Prelude/Text.antt =====
-- The functions of Go's `strings` and `path/filepath` that the plugins use, on text whose letters
-- are ASCII where case matters.
pub mod Prefix
pub mod Split
use Prim.Native.Nat.{ℕ, ◌-◌, ◌+◌}
use Prim.Native.Char.{Char, code}
use Prim.Native.String.{String, ◌++◌, slice}
use mathlib.Core.Bool.{Bool, true, false, ◌&&◌}
use mathlib.Core.Option.{Option, none, some}
use mathlib.Core.List.{List, [], ◌∷◌}
use text.Mathlib.Text.{◌==◌, find?}
use tvk_plugins.Prelude.Tests.{leb, nat_eq, if◌then◌else◌}

abbrev pub push : Char → List String → List String
push c [] = String.◌∷◌ c "" ∷ []
push c (p ∷ ps) = String.◌∷◌ c p ∷ ps

unfoldable pub split : String → ℕ → List String
split String.[] sep = "" ∷ []
split (String.◌∷◌ c s) sep =
    let rest = split s sep in if nat_eq (code c) sep then "" ∷ rest else push c rest

unfoldable trim_left : String → String
trim_left String.[] = ""
trim_left (String.◌∷◌ c s) =
    let rest = trim_left s in if nat_eq (code c) b' ' then rest else String.◌∷◌ c s

unfoldable trim_right : String → String
trim_right String.[] = ""
trim_right (String.◌∷◌ c s) =
    let rest = trim_right s in if nat_eq (code c) b' ' && rest == "" then "" else String.◌∷◌ c rest

unfoldable pub trim : String → String
unfolding trim_left trim_right
trim s = trim_right (trim_left s)

-- The lower-case form of a character, as text.
lower_char : Char → String
lower_char c =
    if leb b'A' (code c) && leb (code c) b'Z'
    then slice "abcdefghijklmnopqrstuvwxyz" (code c - b'A') (code c - b'A' + 1)
    else String.◌∷◌ c ""

-- `strings.ToLower`
unfoldable pub to_lower : String → String
unfolding lower_char
to_lower String.[] = ""
to_lower (String.◌∷◌ c s) = lower_char c ++ to_lower s

-- `strings.EqualFold`
unfoldable pub equal_fold : String → String → Bool
unfolding to_lower
equal_fold a b = to_lower a == to_lower b

-- `strings.Contains`
unfoldable pub contains_text : String → String → Bool
contains_text s t = elim (find? s t) [ some i ↦ true | none ↦ false ]

-- `strings.Replace(s, "/", ".", 1)`
unfoldable pub dot_first_slash : String → String
dot_first_slash String.[] = ""
dot_first_slash (String.◌∷◌ c s) =
    let rest = dot_first_slash s in if nat_eq (code c) b'/' then "." ++ s else String.◌∷◌ c rest

-- `filepath.Join` of clean paths: empty elements are left out.
unfoldable pub join_path : String → String → String
join_path a b = if a == "" then b else (if b == "" then a else a ++ "/" ++ b)
