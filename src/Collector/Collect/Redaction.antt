-- ===== src/Collector/Collect/Redaction.antt =====
-- What is written of the licences of the product: `getTrilioGroupResources` of
-- tools/log-collector/log_collector.go.
use tvk_plugins.Prelude.{
  String, Option, none, some, List, [], ◌∷◌, ◌==◌, ◌≡◌, refl, sym, subst, inl, inr, eq_iff, arith,
}
use tvk_plugins.Prelude.Tests.{Bool-cases}
use tvk_plugins.Prelude.Lists.{All}
use tvk_plugins.Kube.Calls.{ok}
use tvk_plugins.Collector.Objects.{
  Metadata, KubeObject, metadata_or, metadata_of, ApiResource, LogCollector,
}
use tvk_plugins.Collector.Calls.{Call, write}
use tvk_plugins.Collector.Cluster.{Cluster}
use tvk_plugins.Collector.Exec.{State}
use tvk_plugins.Collector.Exec.Keeps.{Keeps, Stable, Keeps-bind, Keeps-pure}
use tvk_plugins.Collector.Files.Keeps.{write_yaml-Keeps}
use tvk_plugins.Collector.Resources.Keeps.{get_resource_objects-Keeps}
use tvk_plugins.Collector.Collect.{
  without_annotations, redact, write_redacted, get_trilio_group_resources,
}

-- A licence has no key and no annotations.
abbrev pub IsRedacted : KubeObject → Type 0
IsRedacted o = o.kind ≡ "License" → (o.license_key ≡ none) × ((metadata_of o).annotations ≡ none)

without_annotations_lem :
    (m : Option Metadata) → (metadata_or (without_annotations m)).annotations ≡ none
without_annotations_lem none = refl
without_annotations_lem (some m) = refl

redact-IsRedacted : (o : KubeObject) → IsRedacted (redact o)
unfolding redact
redact-IsRedacted o = elim (Bool-cases (o.kind == "License")) [
  | inr other ↦
      rw other (λ licence. absurd (ground (arith, other, (eq_iff o.kind "License").1 licence)))
  | inl licence ↦ rw licence (λ same. (refl, without_annotations_lem o.metadata))
]

module _ (p : Cluster) where
  -- A text that is written is that of an object without secrets.
  abbrev pub RedactedCall : Call → Type 0
  RedactedCall (write path text) = (o : KubeObject) × (p.marshal o ≡ ok text) × IsRedacted o
  RedactedCall _ = Unit

  abbrev Redacted : State → Type 0
  Redacted s = All RedactedCall s.calls

  Redacted-Stable : Stable Redacted RedactedCall
  Redacted-Stable = record { call = λ s c q h. (q, h); ocp = λ s h. h }

  module _ (l : LogCollector) where
    write_redacted-Keeps :
        (dir : String) (objects : List KubeObject) → Keeps Redacted (write_redacted p l dir objects)
    unfolding write_redacted
    write_redacted-Keeps dir [] = Keeps-pure tt
    write_redacted-Keeps dir (o ∷ objects) =
        Keeps-bind _ _
          (write_yaml-Keeps Redacted-Stable p l dir (redact o) tt tt
            (λ text e. (redact o, e, redact-IsRedacted o)))
          (λ w. write_redacted-Keeps dir objects)

    trilio-Keeps :
        (rs : List ApiResource) (group_version : String)
        → Keeps Redacted (get_trilio_group_resources p l rs group_version)
    unfolding get_trilio_group_resources
    trilio-Keeps [] group_version = Keeps-pure tt
    trilio-Keeps (r ∷ rs) group_version =
        Keeps-bind _ _ (get_resource_objects-Keeps Redacted-Stable p (λ path. tt) l _ r) (λ objects.
          Keeps-bind _ _ (write_redacted-Keeps r.kind objects) (λ w. trilio-Keeps rs group_version))

    -- Where no call was made before: whatever the cluster and the file system answer, every text that is
    -- written while the resources of the product's API group are dumped is the text of an object that,
    -- where it is a licence, has no key and no annotations.
    pub trilio-RedactedCall :
        (rs : List ApiResource) (group_version : String) (s : State)
        → s.calls ≡ []
        → All RedactedCall (get_trilio_group_resources p l rs group_version s).1.calls
    trilio-RedactedCall rs group_version s h =
        (trilio-Keeps rs group_version).at s (subst (All RedactedCall) (sym h) tt)
