-- ===== src/Preflight/Snapshots/Choice.antt =====
-- Which snapshot class `checkAndCreateSnapshotClassForProvisioner` chooses from those of the cluster.
use tvk_plugins.Prelude.{
  String, Bool, true, false, ◌&&◌, List, [], ◌∷◌, ◌≡◌, refl, ◌⊎◌, inl, inr, arith, sym,
}
use tvk_plugins.Prelude.Tests.{if◌then◌else◌}
use tvk_plugins.Kube.Objects.{VolumeSnapshotClass}
use tvk_plugins.Preflight.Snapshots.{has_driver, is_default, select_class}

-- A class of the list with that property.
abbrev pub Any : (VolumeSnapshotClass → Type 0) → List VolumeSnapshotClass → Type 0
Any P [] = ⊥
Any P (c ∷ cs) = P c ⊎ Any P cs

-- The class is of the driver, and has the name.
abbrev pub IsOf : String → String → VolumeSnapshotClass → Type 0
IsOf provisioner name c = (has_driver provisioner c ≡ true) × (c.name ≡ name)

abbrev pub IsDefaultOf : String → String → VolumeSnapshotClass → Type 0
IsDefaultOf provisioner name c =
    (has_driver provisioner c && is_default c.is_default_class ≡ true) × (c.name ≡ name)

module _ (provisioner : String) where
  later :
      (name kept : String) (c : VolumeSnapshotClass) (cs : List VolumeSnapshotClass)
      → (name ≡ kept) ⊎ Any (IsOf provisioner name) cs
      → (name ≡ kept) ⊎ Any (IsOf provisioner name) (c ∷ cs)
  later name kept c cs (inl e) = inl e
  later name kept c cs (inr a) = inr (inr a)

  own :
      (name kept : String) (c : VolumeSnapshotClass) (cs : List VolumeSnapshotClass)
      → has_driver provisioner c ≡ true
      → (name ≡ c.name) ⊎ Any (IsOf provisioner name) cs
      → (name ≡ kept) ⊎ Any (IsOf provisioner name) (c ∷ cs)
  own name kept c cs d (inl e) = inr (inl (d, sym e))
  own name kept c cs d (inr a) = inr (inr a)

  step :
      (ssc_name : String) (c : VolumeSnapshotClass) (cs : List VolumeSnapshotClass) (d f : Bool)
      → has_driver provisioner c ≡ d
      → (select_class provisioner c.name cs ≡ c.name)
        ⊎ Any (IsOf provisioner (select_class provisioner c.name cs)) cs
      → (select_class provisioner ssc_name cs ≡ ssc_name)
        ⊎ Any (IsOf provisioner (select_class provisioner ssc_name cs)) cs
      → let name =
          if d && f then c.name else select_class provisioner (if d then c.name else ssc_name) cs in
        (name ≡ ssc_name) ⊎ Any (IsOf provisioner name) (c ∷ cs)
  step ssc_name c cs true true e h k = inr (inl (e, refl))
  step ssc_name c cs true false e h k = own _ ssc_name c cs e h
  step ssc_name c cs false f e h k = later _ ssc_name c cs k

  default_step :
      (name : String) (c : VolumeSnapshotClass) (cs : List VolumeSnapshotClass) (b : Bool)
      → has_driver provisioner c && is_default c.is_default_class ≡ b
      → Any (λ x. has_driver provisioner x && is_default x.is_default_class ≡ true) (c ∷ cs)
      → (Any (λ x. has_driver provisioner x && is_default x.is_default_class ≡ true) cs
          → Any (IsDefaultOf provisioner name) cs)
      → Any (IsDefaultOf provisioner (if b then c.name else name)) (c ∷ cs)
  default_step name c cs true e h k = inl (e, refl)
  default_step name c cs false e (inl d) k = absurd (ground arith)
  default_step name c cs false e (inr h) k = inr (k h)

  -- The loop of the search returns the name that it starts with, or that of a class of the driver.
  pub select-IsOf :
      (ssc_name : String) (cs : List VolumeSnapshotClass)
      → (select_class provisioner ssc_name cs ≡ ssc_name)
        ⊎ Any (IsOf provisioner (select_class provisioner ssc_name cs)) cs
  unfolding select_class
  select-IsOf ssc_name [] = inl refl
  select-IsOf ssc_name (c ∷ cs) =
      step ssc_name c cs (has_driver provisioner c) (is_default c.is_default_class) refl
        (select-IsOf c.name cs) (select-IsOf ssc_name cs)

  -- Where a class of the driver is marked as the default, the search returns the name of a default
  -- class of the driver, whatever other classes come before or behind it.
  pub select-IsDefaultOf :
      (ssc_name : String) (cs : List VolumeSnapshotClass)
      → Any (λ c. has_driver provisioner c && is_default c.is_default_class ≡ true) cs
      → Any (IsDefaultOf provisioner (select_class provisioner ssc_name cs)) cs
  unfolding select_class
  select-IsDefaultOf ssc_name [] h = h
  select-IsDefaultOf ssc_name (c ∷ cs) h =
      default_step _ c cs (has_driver provisioner c && is_default c.is_default_class) refl h
        (select-IsDefaultOf (if has_driver provisioner c then c.name else ssc_name) cs)
