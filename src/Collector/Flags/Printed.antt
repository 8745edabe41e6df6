-- ===== src/Collector/Flags/Printed.antt =====
-- What the flags `--gvks` and `--labels` of the log-collector read back (cmd/log-collector/cmd/helper.go).
use Prim.Native.String.{◌++◌}
use tvk_plugins.Prelude.{String, false, List, [], ◌∷◌, map, ◌==◌, ◌≡◌, ◌≢◌, refl, ◌∙◌, ap}
use tvk_plugins.Prelude.Lists.{All, insert}
use tvk_plugins.Prelude.Text.{split}
use tvk_plugins.Prelude.Text.Split.{IsFree, IsFree-append, split-IsFree, split-around}
use tvk_plugins.Kube.Objects.{Labels}
use tvk_plugins.Kube.Calls.{ok, and_then}
use tvk_plugins.Collector.Objects.{GroupVersionKind, LabelSelector}
use tvk_plugins.Collector.Flags.{
  gvk_of_parts, parse_gvk, add_label, and_labels_of, parse_label_selector,
}

-- An element of the flag `--gvks`.
abbrev pub print_gvk : GroupVersionKind → String
print_gvk g = g.group ++ ("/" ++ (g.version ++ ("/" ++ g.kind)))

-- Its parts have no slash, and the kind is not empty.
abbrev pub IsPrintable : GroupVersionKind → Type 0
IsPrintable g =
    IsFree b'/' g.group × IsFree b'/' g.version × IsFree b'/' g.kind × ((g.kind == "") ≡ false)

split-print_gvk :
    (g : GroupVersionKind)
    → IsPrintable g
    → split (print_gvk g) b'/' ≡ g.group ∷ g.version ∷ g.kind ∷ []
split-print_gvk g (group_free, version_free, kind_free, given) =
    split-around b'/' "/" g.group (g.version ++ ("/" ++ g.kind)) refl group_free
    ∙ ap (λ x. g.group ∷ x) (split-around b'/' "/" g.version g.kind refl version_free)
    ∙ ap (λ x. g.group ∷ g.version ∷ x) (split-IsFree b'/' g.kind kind_free)

-- Where no part has a slash and no kind is empty, the flag `--gvks` reads back what is printed.
pub parse_gvk-print :
    (gvks : List GroupVersionKind) → All IsPrintable gvks → parse_gvk (map print_gvk gvks) ≡ ok gvks
unfolding parse_gvk gvk_of_parts and_then
parse_gvk-print [] printable = refl
parse_gvk-print (g ∷ gs) (printable, others) =
    rw (split-print_gvk g printable, printable.3, parse_gvk-print gs others) refl

abbrev pub print_label : String × String → String
print_label l = l.0 ++ ("=" ++ l.1)

-- An element of the flag `--labels`.
abbrev pub print_labels : Labels → String
print_labels [] = ""
print_labels (l ∷ []) = print_label l
print_labels (l ∷ m ∷ ls) = print_label l ++ ("|" ++ print_labels (m ∷ ls))

abbrev pub IsPlain : String → Type 0
IsPlain s = IsFree b'=' s × IsFree b'|' s

abbrev pub HasPlainParts : String × String → Type 0
HasPlainParts l = IsPlain l.0 × IsPlain l.1

-- There is a label, and no key or value has one of the two separators.
abbrev pub IsPrintableSelector : Labels → Type 0
IsPrintableSelector ls = (ls ≢ []) × All HasPlainParts ls

-- The map of these labels, a later one in place of an earlier one with its key.
abbrev pub insert_all : Labels → Labels → Labels
insert_all [] labels = labels
insert_all (l ∷ ls) labels = insert_all ls (insert l.0 l.1 labels)

print_label-IsFree : (l : String × String) → HasPlainParts l → IsFree b'|' (print_label l)
print_label-IsFree l (key, value) =
    IsFree-append b'|' l.0 ("=" ++ l.1) key.1 (IsFree-append b'|' "=" l.1 (refl, tt) value.1)

split-print_label :
    (l : String × String) → HasPlainParts l → split (print_label l) b'=' ≡ l.0 ∷ l.1 ∷ []
split-print_label l (key, value) =
    split-around b'=' "=" l.0 l.1 refl key.0 ∙ ap (λ x. l.0 ∷ x) (split-IsFree b'=' l.1 value.0)

split-print_labels :
    (l : String × String) (ls : Labels)
    → All HasPlainParts (l ∷ ls)
    → split (print_labels (l ∷ ls)) b'|' ≡ map print_label (l ∷ ls)
split-print_labels l [] (plain, others) =
    split-IsFree b'|' (print_label l) (print_label-IsFree l plain)
split-print_labels l (m ∷ ls) (plain, others) =
    split-around b'|' "|" (print_label l) (print_labels (m ∷ ls)) refl (print_label-IsFree l plain)
    ∙ ap (λ x. print_label l ∷ x) (split-print_labels m ls others)

and_labels_of-print :
    (ls labels : Labels)
    → All HasPlainParts ls
    → and_labels_of (map print_label ls) labels ≡ ok (insert_all ls labels)
unfolding and_labels_of add_label and_then
and_labels_of-print [] labels plain = refl
and_labels_of-print (l ∷ ls) labels (plain, others) =
    rw (split-print_label l plain) (and_labels_of-print ls (insert l.0 l.1 labels) others)

abbrev pub selector_of : Labels → LabelSelector
selector_of ls = record { match_labels = insert_all ls []; match_expressions = [] }

labels_read :
    (ls : Labels)
    → IsPrintableSelector ls
    → and_labels_of (split (print_labels ls) b'|') [] ≡ ok (insert_all ls [])
labels_read [] (given, plain) = absurd (given refl)
labels_read (l ∷ ls) (given, plain) =
    ap (λ x. and_labels_of x []) (split-print_labels l ls plain)
    ∙ and_labels_of-print (l ∷ ls) [] plain

-- Where no key or value has one of the separators and no list of labels is empty, the flag `--labels`
-- reads, from what is printed of lists of labels, one selector for each list: the map of its labels.
pub parse_label_selector-print :
    (lists : List Labels)
    → All IsPrintableSelector lists
    → parse_label_selector (map print_labels lists) ≡ ok (map selector_of lists)
unfolding parse_label_selector and_then
parse_label_selector-print [] printable = refl
parse_label_selector-print (ls ∷ lists) (printable, others) =
    rw (labels_read ls printable, parse_label_selector-print lists others) refl
