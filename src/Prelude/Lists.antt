-- ===== src/Prelude/Lists.antt =====
-- Lists: length over the native numbers, predicates that hold of every element, and maps with
-- text keys as association lists.
use Prim.Native.Nat.{ℕ, suc}
use Prim.Native.String.{String}
use mathlib.Core.Path.{◌≡◌, refl, ◌∙◌}
use mathlib.Core.Logic.{◌⊎◌, inl, inr}
use mathlib.Core.Bool.{Bool, true, false}
use mathlib.Core.List.{List, [], ◌∷◌, ◌++◌}
use mathlib.Core.Option.{Option, none, some}
use native.Mathlib.Omega.{arith}
use text.Mathlib.Text.{◌==◌}
use text.Mathlib.TextEquality.{eq_iff}
use tvk_plugins.Prelude.Tests.{if◌then◌else◌, Bool-cases}

module _ {ℓ} {A : Type ℓ} where
  abbrev pub length : List A → ℕ
  length [] = 0
  length (x ∷ xs) = suc (length xs)

  abbrev pub filter : (A → Bool) → List A → List A
  filter p [] = []
  filter p (x ∷ xs) = let rest = filter p xs in if p x then x ∷ rest else rest

module _ {ℓ κ} {A : Type ℓ} (P : A → Type κ) where
  abbrev pub All : List A → Type κ
  All [] = Unit
  All (x ∷ xs) = P x × All xs

  pub All-append : (xs ys : List A) → All xs → All ys → All (xs ++ ys)
  All-append [] ys hx hy = hy
  All-append (x ∷ xs) ys (p, hx) hy = (p, All-append xs ys hx hy)

module _ {ℓ} {A : Type ℓ} (P : A → Type 0) where
  abbrev pub Any : List A → Type 0
  Any [] = ⊥
  Any (x ∷ xs) = P x ⊎ Any xs

  -- `ys` are the elements of `xs` of which `P` holds, in their order.
  pub data Filtered : List A → List A → Type ℓ where
    no_more : Filtered [] []
    kept : {x : A} {xs ys : List A} → P x → Filtered xs ys → Filtered (x ∷ xs) (x ∷ ys)
    dropped : {x : A} {xs ys : List A} → (P x → ⊥) → Filtered xs ys → Filtered (x ∷ xs) ys

pub All-trivial {ℓ} : {A : Type ℓ} (xs : List A) → All (λ x. Unit {0}) xs
All-trivial [] = tt
All-trivial (x ∷ xs) = (tt, All-trivial xs)

-- A slice that may be nil.
abbrev pub or_nil {ℓ} : {A : Type ℓ} → Option (List A) → List A
or_nil none = []
or_nil (some xs) = xs

-- A Go map: at most one entry for a key counts, the first.
module _ {ℓ} {V : Type ℓ} where
  -- `m[key]`, with `none` for a missing key
  unfoldable pub lookup : String → List (String × V) → Option V
  lookup key [] = none
  lookup key (entry ∷ entries) =
      let later = lookup key entries in if entry.0 == key then some entry.1 else later

  unfoldable without : String → List (String × V) → List (String × V)
  without key [] = []
  without key (entry ∷ entries) =
      let rest = without key entries in if entry.0 == key then rest else entry ∷ rest

  -- `m[key] = value`
  unfoldable pub insert : String → V → List (String × V) → List (String × V)
  unfolding without
  insert key value m = (key, value) ∷ without key m

  lookup-without :
      (key other : String) (m : List (String × V))
      → key == other ≡ false
      → lookup other (without key m) ≡ lookup other m
  unfolding lookup without
  lookup-without key other [] h = refl
  lookup-without key other (entry ∷ entries) h = ground (
    arith,
    eq_iff key other,
    eq_iff entry.0 key,
    eq_iff entry.0 other,
    lookup-without key other entries h,
  )

  pub lookup-insert :
      (key other : String) (value : V) (m : List (String × V))
      → lookup other (insert key value m) ≡ (if key == other then some value else lookup other m)
  unfolding lookup insert
  lookup-insert key other value m = elim (Bool-cases (key == other)) [
    | inl same ↦ rw same refl
    | inr apart ↦ rw apart (lookup-without key other m apart)
  ]

  pub lookup-insert-same :
      (key other : String) (value : V) (m : List (String × V))
      → key == other ≡ true
      → lookup other (insert key value m) ≡ some value
  lookup-insert-same key other value m same = lookup-insert key other value m ∙ rw same refl

  pub lookup-insert-apart :
      (key other : String) (value : V) (m : List (String × V))
      → key == other ≡ false
      → lookup other (insert key value m) ≡ lookup other m
  lookup-insert-apart key other value m apart = lookup-insert key other value m ∙ rw apart refl
