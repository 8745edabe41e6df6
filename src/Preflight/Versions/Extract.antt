-- ===== src/Preflight/Versions/Extract.antt =====
-- What `extractVersionFromString` takes out of a text.
use Prim.Native.Char.{Char, code}
use Prim.Native.String.{◌++◌}
use tvk_plugins.Prelude.{String, Option, some, ◌∷◌, ◌≡◌}
use tvk_plugins.Preflight.Versions.{Matcher}

-- The text stands at the front.
abbrev Front : String → String → Type 0
Front t s = (rest : String) × (s ≡ t ++ rest)

-- The text stands somewhere.
abbrev pub Inside : String → String → Type 0
Inside t s = (before : String) × (rest : String) × (s ≡ before ++ (t ++ rest))

-- A matcher takes what it returns from the front.
IsSound : Matcher → Type 0
IsSound m = (s t : String) → m s ≡ some t → Front t s

-- A character in front of what another match returned.
Taken : Char → String → Option String → Type 0
Taken c t o = (u : String) × (o ≡ some u) × (String.◌∷◌ c u ≡ t)

-- A `v` and the version.
abbrev pub IsTagged : String → Type 0
IsTagged t = (c : Char) × (u : String) × (t ≡ String.◌∷◌ c u) × (code c ≡ b'v')

-- A tagged version that stands in the text.
abbrev IsMatch : String → String → Type 0
IsMatch s t = Inside t s × IsTagged t
