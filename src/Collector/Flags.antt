-- ===== src/Collector/Flags.antt =====
-- The flags of cmd/log-collector/cmd (helper.go, root.go, constants.go) and what parses them.
pub mod Printed
use Prim.Native.String.{◌++◌}
use tvk_plugins.Prelude.{String, Bool, Option, List, [], ◌∷◌, ◌==◌}
use tvk_plugins.Prelude.Tests.{if◌then◌else◌}
use tvk_plugins.Prelude.Lists.{insert}
use tvk_plugins.Prelude.Text.{split}
use tvk_plugins.Kube.Objects.{Labels, Opaque}
use tvk_plugins.Kube.Calls.{
  Error, gvk_syntax, empty_gvk_kind, index_out_of_range, selector_syntax, Result, ok, err, and_then,
}
use tvk_plugins.Internal.Host.{Host}
use tvk_plugins.Collector.Objects.{GroupVersionKind, LabelSelector, LogCollector}

-- The package variables that the flags set; `changed` is `cmd.Flags().Changed`.
pub record Flags : Type 0 where
  pub changed : String → Bool
  pub namespaces : List String
  pub clustered : Bool
  pub kube_config : String
  pub keep_source : Bool
  pub log_level : String
  pub input_file_name : String
  pub gvk_slice : List String
  pub label_slice : List String

-- `apiv1.APIGroup`, with the version that the server prefers.
pub record ApiGroup : Type 0 where
  pub name : String
  pub preferred_version : String

-- What the command uses of the file system, the libraries and the cluster, as parameters.
-- `unmarshal_strict` reads a text into the options that are there; `server_groups` may give a list with an
-- error; `selector_text` is `LabelSelector.String`; `timestamp` is the time as the code formats it.
pub record Libraries : Type 0 where
  pub read_file : String → Result String
  pub unmarshal_strict : String → LogCollector → Result LogCollector
  pub host : Host
  pub server_groups : List ApiGroup × Option Error
  pub selector_text : LabelSelector → String
  pub parse_level : String → Result Opaque
  pub timestamp : String

abbrev pub clustered_flag : String
clustered_flag = "clustered"

abbrev pub namespaces_flag : String
namespaces_flag = "namespaces"

abbrev pub keep_source_flag : String
keep_source_flag = "keep-source-folder"

abbrev pub gvk_flag : String
gvk_flag = "gvks"

abbrev pub labels_flag : String
labels_flag = "labels"

abbrev pub kubeconfig_flag : String
kubeconfig_flag = "kubeconfig"

abbrev pub log_level_flag : String
log_level_flag = "log-level"

-- One element of `gvkSlice`: the third part is read where the number of parts is wrong, too.
unfoldable pub gvk_of_parts : List String → Result GroupVersionKind
gvk_of_parts (group ∷ version ∷ kind ∷ []) =
    if kind == ""
    then err empty_gvk_kind
    else ok (record { group = group; version = version; kind = kind })
gvk_of_parts (group ∷ version ∷ kind ∷ part ∷ parts) =
    if kind == "" then err empty_gvk_kind else err gvk_syntax
gvk_of_parts _ = err index_out_of_range

unfoldable pub parse_gvk : List String → Result (List GroupVersionKind)
unfolding gvk_of_parts split
parse_gvk [] = ok []
parse_gvk (s ∷ ss) =
    let rest = parse_gvk ss in
    and_then (gvk_of_parts (split s b'/')) (λ gvk. and_then rest (λ gvks. ok (gvk ∷ gvks)))

-- The loop over the labels of one element, from the map so far.
unfoldable pub add_label : List String → Labels → Result Labels
unfolding insert
add_label (key ∷ value ∷ []) labels = ok (insert key value labels)
add_label _ labels = err selector_syntax

unfoldable pub and_labels_of : List String → Labels → Result Labels
unfolding add_label split
and_labels_of [] labels = ok labels
and_labels_of (and_label ∷ and_labels) labels =
    and_then (add_label (split and_label b'=') labels) (λ more. and_labels_of and_labels more)

unfoldable pub parse_label_selector : List String → Result (List LabelSelector)
unfolding and_labels_of split
parse_label_selector [] = ok []
parse_label_selector (s ∷ ss) =
    let rest = parse_label_selector ss in
    and_then (and_labels_of (split s b'|') []) (λ labels.
      and_then rest
        (λ selectors. ok (record { match_labels = labels; match_expressions = [] } ∷ selectors)))
