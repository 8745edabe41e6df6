-- ===== src/Internal/CommandLine.antt =====
-- What the commands use of the flag library, pflag as cobra passes it on.
use tvk_plugins.Prelude.{String, Bool, true, false, List, ◌≡◌, refl, ◌||◌, ◌==◌, inl, inr}
use tvk_plugins.Prelude.Tests.{if◌then◌else◌, Bool-cases}

-- What the flag library makes of the arguments, as parameters: whether a flag of that name was given,
-- and the value of the variable of a flag, from its name, its shorthand ("" for none) and its default.
pub record CommandLine : Type 0 where
  pub changed : String → Bool
  pub string_var : String → String → String → String
  pub bool_var : String → String → Bool → Bool
  pub string_slice_var : String → String → List String → List String

-- A variable keeps its default where its flag is not given.
pub record KeepsDefaults (cl : CommandLine) : Type 0 where
  pub text :
      (name short default : String)
      → cl.changed name ≡ false
      → cl.string_var name short default ≡ default
  pub truth :
      (name short : String) (default : Bool)
      → cl.changed name ≡ false
      → cl.bool_var name short default ≡ default
  pub texts :
      (name short : String) (default : List String)
      → cl.changed name ≡ false
      → cl.string_slice_var name short default ≡ default

-- What is taken of a flag where nothing else was there before.
pub none_kept : (b : Bool) (given : String) → (if b || "" == "" then given else "") ≡ given
none_kept true given = refl
none_kept false given = refl

module _ (cl : CommandLine) (keeps : KeepsDefaults cl) where
  pub given_text :
      (flag : String)
      → (if cl.changed flag then cl.string_var flag "" "" else "") ≡ cl.string_var flag "" ""
  given_text flag =
      let kept = keeps.text flag "" "" in
      elim (Bool-cases (cl.changed flag)) [ inl e ↦ rw e refl | inr e ↦ rw (e, kept e) refl ]

  pub given_truth :
      (flag short : String) (b : Bool)
      → cl.changed flag ≡ b
      → (if b then cl.bool_var flag short false else false) ≡ cl.bool_var flag short false
  given_truth flag short true e = refl
  given_truth flag short false e = rw (keeps.truth flag short false e) refl
