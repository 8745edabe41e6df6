-- ===== src/Preflight/Snapshots/Keeps.antt =====
-- What the checks of volume snapshot CRDs and classes keep.
use tvk_plugins.Prelude.{String, List, [], ◌∷◌}
use tvk_plugins.Kube.Objects.{VolumeSnapshotClass}
use tvk_plugins.Kube.Calls.{Call, Error}
use tvk_plugins.Preflight.Exec.{State, modify}
use tvk_plugins.Preflight.Exec.Keeps.{Keeps, Stable, Keeps-bind, keeps_rules}
use tvk_plugins.Preflight.Platform.{Platform}
use tvk_plugins.Preflight.Resources.Keeps.{
  create_resource_name_suffix-Keeps, get_server_preferred_version_for_group-Keeps,
}
use tvk_plugins.Preflight.Versions.Keeps.{get_pref_snapshot_class_version-Keeps}
use tvk_plugins.Preflight.Snapshots.{
  create_volume_snapshot_class, install_snapshot_class,
  check_and_create_snapshot_class_for_provisioner, cluster_has_volume_snapshot_class,
  set_storage_vol_snap_class, clear_snapshot_class, validate_storage_snapshot_class, install_crd,
  ensure_crd, ensure_crds, raise_errors, check_and_create_volume_snapshot_crds,
}

module _ {P : State → Type 0} {Q : Call → Type 0} (stable : Stable P Q) (p : Platform) where
  set_storage_vol_snap_class-Keeps : (n : String) → Keeps P (set_storage_vol_snap_class n)
  unfolding set_storage_vol_snap_class modify
  set_storage_vol_snap_class-Keeps n = record { at = λ s h. stable.fields s s.snapshot_class n h }

  clear_snapshot_class-Keeps : Keeps P clear_snapshot_class
  unfolding clear_snapshot_class modify
  clear_snapshot_class-Keeps = record { at = λ s h. stable.fields s "" s.storage_vol_snap_class h }

  raise_errors-Keeps : (es : List Error) → Keeps P (raise_errors es)
  unfolding raise_errors
  raise_errors-Keeps [] = search keeps_rules
  raise_errors-Keeps (e ∷ es) = search keeps_rules

  module _ (qr : Q Call.random) (qg : Q Call.server_groups)
      (qc : (v : VolumeSnapshotClass) → Q (Call.create_snapshot_class v))
      (ql : (v : String) → Q (Call.list_snapshot_classes v))
      (qs : (v n : String) → Q (Call.get_snapshot_class v n)) where
    create_volume_snapshot_class-Keeps :
        (d v : String) → Keeps P (create_volume_snapshot_class p d v)
    unfolding create_volume_snapshot_class
    create_volume_snapshot_class-Keeps d v =
        search (keeps_rules, stable, create_resource_name_suffix-Keeps, qr, qc) depth 7

    install_snapshot_class-Keeps : (d v : String) → Keeps P (install_snapshot_class p d v)
    unfolding install_snapshot_class
    install_snapshot_class-Keeps d v = search (keeps_rules, create_volume_snapshot_class-Keeps)

    check_and_create_snapshot_class_for_provisioner-Keeps :
        (v d : String) → Keeps P (check_and_create_snapshot_class_for_provisioner p v d)
    unfolding check_and_create_snapshot_class_for_provisioner
    check_and_create_snapshot_class_for_provisioner-Keeps v d =
        search (keeps_rules, stable, install_snapshot_class-Keeps, ql)

    cluster_has_volume_snapshot_class-Keeps :
        (n : String) → Keeps P (cluster_has_volume_snapshot_class p n)
    unfolding cluster_has_volume_snapshot_class
    cluster_has_volume_snapshot_class-Keeps n =
        search (keeps_rules, stable, get_server_preferred_version_for_group-Keeps, qg, qs) depth 7

    pub validate_storage_snapshot_class-Keeps :
        (d v : String) → Keeps P (validate_storage_snapshot_class p d v)
    unfolding validate_storage_snapshot_class
    validate_storage_snapshot_class-Keeps d v =
        search
          (
            keeps_rules, set_storage_vol_snap_class-Keeps,
            check_and_create_snapshot_class_for_provisioner-Keeps,
            cluster_has_volume_snapshot_class-Keeps,
          )
          depth 8

  module _ (qg : (n : String) → Q (Call.get_crd n))
      (qc : (c : String) → Q (Call.create_crd c)) where
    install_crd-Keeps : (v c : String) → Keeps P (install_crd p v c)
    unfolding install_crd
    install_crd-Keeps v c = search (keeps_rules, stable, clear_snapshot_class-Keeps, qc) depth 8

    ensure_crd-Keeps : (v c : String) → Keeps P (ensure_crd p v c)
    unfolding ensure_crd
    ensure_crd-Keeps v c = search (keeps_rules, stable, install_crd-Keeps, qg)

    ensure_crds-Keeps : (v : String) (cs : List String) → Keeps P (ensure_crds p v cs)
    unfolding ensure_crds
    ensure_crds-Keeps v [] = search keeps_rules
    ensure_crds-Keeps v (c ∷ cs) =
        Keeps-bind _ _ (ensure_crd-Keeps v c)
          (λ e. Keeps-bind _ _ (ensure_crds-Keeps v cs) (λ es. search keeps_rules))

    pub check_and_create_volume_snapshot_crds-Keeps :
        (v : String) → Keeps P (check_and_create_volume_snapshot_crds p v)
    unfolding check_and_create_volume_snapshot_crds
    check_and_create_volume_snapshot_crds-Keeps v =
        search (
          keeps_rules, get_pref_snapshot_class_version-Keeps, ensure_crds-Keeps, raise_errors-Keeps,
        )
