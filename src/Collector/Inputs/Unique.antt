-- ===== src/Collector/Inputs/Unique.antt =====
-- Which of the requested kinds are kept by `deDuplicateAndFixGVKs` (cmd/log-collector/cmd/helper.go).
use tvk_plugins.Prelude.{String, true, List, ◌≡◌, ◌⊎◌}
use tvk_plugins.Prelude.Lists.{Any}
use tvk_plugins.Collector.Objects.{GroupVersionKind}
use tvk_plugins.Collector.Filters.{has}
use tvk_plugins.Collector.Flags.{ApiGroup}
use tvk_plugins.Collector.Inputs.{gvk_key, fix_version}

module _ (groups : List ApiGroup) where
  -- One of the kept ones stands for a request with the same key.
  abbrev pub StandsFor : GroupVersionKind → GroupVersionKind → Type 0
  StandsFor request kept =
      (g : GroupVersionKind) × (gvk_key g ≡ gvk_key request) × (kept ≡ fix_version groups g)

  abbrev pub IsKept : List GroupVersionKind → GroupVersionKind → Type 0
  IsKept result request = Any (StandsFor request) result

  -- Kept, or with a key from before.
  abbrev Covered : List String → List GroupVersionKind → GroupVersionKind → Type 0
  Covered keys result request = (has (gvk_key request) keys ≡ true) ⊎ IsKept result request
