-- ===== src/Collector/Footprint.antt =====
-- The calls that a collection may make, each with the calls before it.
use tvk_plugins.Prelude.{String, false, none, List, [], ◌∷◌, ◌++◌, ◌≡◌}
use tvk_plugins.Prelude.Lists.{All}
use tvk_plugins.Prelude.Text.Prefix.{Below}
use tvk_plugins.Kube.Calls.{ok}
use tvk_plugins.Collector.Objects.{LogCollector}
use tvk_plugins.Collector.Calls.{Call, stat, mkdir_all, create, write, walk, zip_copy, remove_all}
use tvk_plugins.Collector.Cluster.{WalkEntry, Cluster}

-- `P` holds of every call and the calls before it.
abbrev pub Every : (List Call → Call → Type 0) → List Call → Type 0
Every P [] = Unit
Every P (c ∷ h) = P h c × Every P h

module _ (p : Cluster) where
  -- A file was copied into the archive without an error.
  abbrev pub Copied : List Call → String → Type 0
  Copied h path =
      (later : List Call) × (earlier : List Call) × (text : String) × (h
        ≡ later ++ (zip_copy path ∷ earlier))
      × (p.zip_copy earlier path ≡ ok text)

  -- An entry of a walk is no error, and a file is in the archive.
  abbrev pub Packed : List Call → WalkEntry → Type 0
  Packed h e = (e.error ≡ none) × (e.is_dir ≡ false → Copied h e.path)

  -- The output directory was walked, and all of it is in the archive.
  abbrev pub Archived : LogCollector → List Call → Type 0
  Archived l h =
      (later : List Call) × (earlier : List Call) × (h ≡ later ++ (walk l.output_dir ∷ earlier))
      × All (Packed h) (p.walk earlier l.output_dir)

  -- What is looked for, made and written has a path that begins with the output directory, and only
  -- that directory is removed, where it is not to be kept and all of it is in the archive.
  abbrev pub CollectCall : LogCollector → List Call → Call → Type 0
  CollectCall l h (stat path) = Below l.output_dir path
  CollectCall l h (mkdir_all path) = Below l.output_dir path
  CollectCall l h (create path) = Below l.output_dir path
  CollectCall l h (write path text) = Below l.output_dir path
  CollectCall l h (walk path) = path ≡ l.output_dir
  CollectCall l h (remove_all path) =
      (path ≡ l.output_dir) × (l.clean_output ≡ false) × Archived l h
  CollectCall l h _ = Unit
