-- ===== src/Internal/Shell/Words.antt =====
-- What `Execute` of internal/utils/shell/cmd.go runs for a command given as text.
use Prim.Native.String.{◌++◌}
use tvk_plugins.Prelude.{String, false, List, [], ◌∷◌, ◌==◌, ◌≡◌, refl, ◌∙◌, ap}
use tvk_plugins.Prelude.Lists.{All}
use tvk_plugins.Prelude.Text.{split}
use tvk_plugins.Prelude.Text.Split.{IsFree, split-IsFree, split-around}
use tvk_plugins.Internal.Shell.{words, first, tail, command_of}

-- The command and its arguments, with one space between two of them.
abbrev pub spaced : String → List String → String
spaced name [] = name
spaced name (arg ∷ args) = name ++ (" " ++ spaced arg args)

-- Not empty, and without a space.
abbrev pub IsWord : String → Type 0
IsWord s = IsFree b' ' s × ((s == "") ≡ false)

split-spaced :
    (name : String) (args : List String)
    → IsFree b' ' name
    → All IsWord args
    → split (spaced name args) b' ' ≡ name ∷ args
split-spaced name [] free all = split-IsFree b' ' name free
split-spaced name (arg ∷ args) free (word, all) =
    split-around b' ' " " name (spaced arg args) refl free
    ∙ ap (λ x. name ∷ x) (split-spaced arg args word.0 all)

words-IsWord : (args : List String) → All IsWord args → words args ≡ args
unfolding words
words-IsWord [] all = refl
words-IsWord (arg ∷ args) (word, all) = rw (word.1, words-IsWord args all) refl

-- A command of words with one space between two of them is run as it is meant: its first word, with the
-- others as the arguments.
pub command_of-spaced :
    (name : String) (args : List String)
    → All IsWord (name ∷ args)
    → command_of (spaced name args) ≡ (name, args)
unfolding command_of
command_of-spaced name args (word, all) =
    ap (λ parts. (first parts, tail (words parts))) (split-spaced name args word.0 all)
    ∙ ap (λ ws. (name, tail ws)) (words-IsWord (name ∷ args) (word, all))
