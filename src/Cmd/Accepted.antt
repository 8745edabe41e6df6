-- ===== src/Cmd/Accepted.antt =====
-- What the validation of cmd/preflight/cmd/helper.go accepts.

use tvk_plugins.Prelude.{String, ◌≡◌, ◌≢◌, ◌↔◌, ◌⊎◌, false, eq_iff, arith}
use tvk_plugins.Kube.Calls.{ok}
use tvk_plugins.Preflight.Exec.{State}
use tvk_plugins.Preflight.Options.{Run, CommonOptions}
use tvk_plugins.Preflight.Platform.{Platform}
use tvk_plugins.Preflight.Resources.{create_resource_name_suffix}
use tvk_plugins.Preflight.Resources.Suffix.{suffix-Letters}
use tvk_plugins.Cmd.Flags.{done, Libraries}
use tvk_plugins.Cmd.Values.{quantity_of}
use tvk_plugins.Cmd.Inputs.{validate_run_options, validate_cleanup_fields}

module _ (lib : Libraries) (o : Run) where
  abbrev pub IsAccepted : Type 0
  IsAccepted =
      (o.storage_class ≢ "")
      × ((o.image_pull_secret ≡ "") ⊎ (o.local_registry ≢ ""))
      × (lib.value_above (quantity_of lib "memory" o.resource_requirements.requests)
            (quantity_of lib "memory" o.resource_requirements.limits)
          ≡ false)
      × (lib.float_above (quantity_of lib "cpu" o.resource_requirements.requests)
            (quantity_of lib "cpu" o.resource_requirements.limits)
          ≡ false)

  -- A run is accepted exactly if it names a storage class, gives no image pull secret without a
  -- local registry, and requests no more memory and no more CPU than its limits, where a missing
  -- amount counts as the library's zero quantity.
  pub validate-done_iff : (validate_run_options lib o ≡ done tt) ↔ IsAccepted
  unfolding validate_run_options
  validate-done_iff = (
    λ h. ground (
      arith,
      eq_iff o.storage_class "",
      eq_iff o.image_pull_secret "",
      eq_iff o.local_registry "",
    ),
    λ h. ground (
      arith,
      eq_iff o.storage_class "",
      eq_iff o.image_pull_secret "",
      eq_iff o.local_registry "",
    ),
  )

-- The suffix of a run that was generated is accepted as the uid of a cleanup.
pub generated-uid_accepted :
    (p : Platform) (s : State) (t : String) (c : CommonOptions)
    → (create_resource_name_suffix p s).0 ≡ ok t
    → validate_cleanup_fields (record { uid = t; common_options = c }) ≡ done tt
unfolding validate_cleanup_fields
generated-uid_accepted p s t c h = let (n, k) = suffix-Letters p s t h in ground arith
