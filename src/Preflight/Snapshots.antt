-- ===== src/Preflight/Snapshots.antt =====
-- Volume snapshot CRDs and classes: `checkAndCreateVolumeSnapshotCRDs`,
-- `validateStorageSnapshotClass`, `checkAndCreateSnapshotClassForProvisioner` and
-- `createVolumeSnapshotClass` of tools/preflight/preflight.go, and
-- `clusterHasVolumeSnapshotClass` of tools/preflight/helper.go.
pub mod Keeps
pub mod Choice
pub mod Crds
use Prim.Native.String.{◌++◌}
use tvk_plugins.Prelude.{String, Bool, false, ◌&&◌, Option, none, some, List, [], ◌∷◌, ◌==◌}
use tvk_plugins.Prelude.Tests.{if◌then◌else◌}
use tvk_plugins.Kube.Objects.{Nested, found, absent, malformed, VolumeSnapshotClass}
use tvk_plugins.Kube.Calls.{
  Error, snapshot_class_not_found, driver_mismatch, creating_snapshot_class, generating_suffix,
  getting_crd, aggregate, new_aggregate, is_not_found, Call,
}
use tvk_plugins.Preflight.Exec.{
  Exec, pure, raise, lift, gets, ask, try, modify, ◌>>=◌, ◌>>◌, on_result,
}
use tvk_plugins.Preflight.Options.{storage_snapshot_group, volume_snapshot_crds}
use tvk_plugins.Preflight.Platform.{Platform}
use tvk_plugins.Preflight.Resources.{
  create_resource_name_suffix, get_server_preferred_version_for_group,
}
use tvk_plugins.Preflight.Versions.{get_pref_snapshot_class_version}

-- `vssc.Object["driver"] == provisioner`
unfoldable pub has_driver : String → VolumeSnapshotClass → Bool
has_driver provisioner c = elim c.driver [ some d ↦ d == provisioner | none ↦ false ]

unfoldable pub is_default : Nested String → Bool
is_default (found v) = v == "true"
is_default absent = false
is_default malformed = false

-- The loop over the classes: the first default class of the driver, or else the last class of the
-- driver, or else what `sscName` holds.
unfoldable pub select_class : String → String → List VolumeSnapshotClass → String
unfolding has_driver is_default
select_class provisioner ssc_name [] = ssc_name
select_class provisioner ssc_name (c ∷ cs) =
    let rest =
      select_class provisioner (if has_driver provisioner c then c.name else ssc_name) cs in
    if has_driver provisioner c && is_default c.is_default_class then c.name else rest

abbrev pub snapshot_class_crd : String
snapshot_class_crd = "volumesnapshotclasses.snapshot.storage.k8s.io"

-- `filepath.Join(volumeSnapshotCRDYamlDir, prefCRDVersion, crd+".yaml")`
unfoldable pub crd_path : String → String → String
crd_path version crd = "volumesnapshotcrdyamls/" ++ version ++ "/" ++ crd ++ ".yaml"

-- `if len(errs) != 0 { return kerrors.NewAggregate(errs) }`
unfoldable pub raise_errors : List Error → Exec (Unit {0})
raise_errors [] = pure tt
raise_errors (e ∷ es) = raise (aggregate (new_aggregate (e ∷ es)))

unfoldable pub set_storage_vol_snap_class : String → Exec (Unit {0})
set_storage_vol_snap_class name = modify (λ s. record s { storage_vol_snap_class = name })

-- `o.SnapshotClass = ""`
unfoldable pub clear_snapshot_class : Exec (Unit {0})
clear_snapshot_class = modify (λ s. record s { snapshot_class = "" })

module _ (p : Platform) where
  unfoldable pub create_volume_snapshot_class : String → String → Exec String
  create_volume_snapshot_class driver pref_version = do
    r ← try (create_resource_name_suffix p)
    on_result r (λ e. raise (generating_suffix e))
        (λ rand_str. (do
          let vsc_name = "preflight-generated-snapshot-class-" ++ rand_str
          let vsc : VolumeSnapshotClass = record {
            gvk = record {
              group = storage_snapshot_group;
              version = pref_version;
              kind = "VolumeSnapshotClass";
            };
            name = vsc_name;
            driver = some driver;
            deletion_policy = some "Delete";
            is_default_class = absent;
          }
          created ← ask (Call.create_snapshot_class vsc) (λ h. p.create_snapshot_class h vsc)
          pure vsc_name))

  -- The two places that fall back on a new class.
  unfoldable pub install_snapshot_class : String → String → Exec String
  unfolding create_volume_snapshot_class
  install_snapshot_class provisioner pref_version = do
    r ← try (create_volume_snapshot_class provisioner pref_version)
    on_result r (λ e. raise (creating_snapshot_class provisioner e)) pure

  unfoldable pub check_and_create_snapshot_class_for_provisioner : String → String → Exec String
  unfolding select_class install_snapshot_class
  check_and_create_snapshot_class_for_provisioner pref_version provisioner = do
    classes ←
        ask (Call.list_snapshot_classes pref_version) (λ h. p.list_snapshot_classes h pref_version)
    let ssc_name = select_class provisioner "" classes
    if ssc_name == "" then install_snapshot_class provisioner pref_version else pure ssc_name

  unfoldable pub cluster_has_volume_snapshot_class : String → Exec VolumeSnapshotClass
  cluster_has_volume_snapshot_class snapshot_class = do
    pref_version ← get_server_preferred_version_for_group p storage_snapshot_group
    r ← try (
        ask (Call.get_snapshot_class pref_version snapshot_class)
          (λ h. p.get_snapshot_class h pref_version snapshot_class))
    on_result r
        (λ e. if is_not_found e then raise (snapshot_class_not_found snapshot_class e) else raise e)
        pure

  -- An assignment to `storageVolSnapClass` happens also where the call returns "" and an error.
  unfoldable pub validate_storage_snapshot_class : String → String → Exec (Unit {0})
  unfolding check_and_create_snapshot_class_for_provisioner cluster_has_volume_snapshot_class
      set_storage_vol_snap_class
  validate_storage_snapshot_class provisioner pref_version = do
    snapshot_class ← gets (λ s. s.snapshot_class)
    if snapshot_class == ""
        then (do
          r ← try (check_and_create_snapshot_class_for_provisioner pref_version provisioner)
          on_result r (λ e. set_storage_vol_snap_class "" >> raise e) set_storage_vol_snap_class)
        else (do
          set_storage_vol_snap_class snapshot_class
          vsc ← cluster_has_volume_snapshot_class snapshot_class
          if has_driver provisioner vsc
              then pure tt
              else raise (driver_mismatch snapshot_class provisioner))

  -- Install one CRD that is missing: the error that the loop collects, if any.
  unfoldable pub install_crd : String → String → Exec (Option Error)
  unfolding clear_snapshot_class
  install_crd version crd = do
    r ← try (do
      file_bytes ← lift (p.read_file (crd_path version crd))
      crd_obj ← lift (p.unmarshal_crd file_bytes)
      ask (Call.create_crd crd_obj) (λ h. p.create_crd h crd_obj))
    on_result r (λ e. pure (some e))
        (λ _. (if crd == snapshot_class_crd then clear_snapshot_class >> pure none else pure none))

  -- One round of the loop over `VolumeSnapshotCRDs`.
  unfoldable pub ensure_crd : String → String → Exec (Option Error)
  unfolding install_crd
  ensure_crd version crd = do
    r ← try (ask (Call.get_crd crd) (λ h. p.get_crd h crd))
    on_result r (λ e. if is_not_found e then install_crd version crd else raise (getting_crd e))
        (λ _. pure none)

  unfoldable pub ensure_crds : String → List String → Exec (List Error)
  unfolding ensure_crd
  ensure_crds version [] = pure []
  ensure_crds version (crd ∷ crds) = do
    e ← ensure_crd version crd
    es ← ensure_crds version crds
    pure (elim e [ some x ↦ x ∷ es | none ↦ es ])

  unfoldable pub check_and_create_volume_snapshot_crds : String → Exec (Unit {0})
  unfolding ensure_crds get_pref_snapshot_class_version raise_errors
  check_and_create_volume_snapshot_crds server_version = do
    version ← get_pref_snapshot_class_version p server_version
    errs ← ensure_crds version volume_snapshot_crds
    raise_errors errs
