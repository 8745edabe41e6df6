-- ===== src/Preflight/Specs.antt =====
-- The objects that the checks create: the `create…Spec` functions and their templates, of
-- tools/preflight/helper.go.
use Prim.Native.String.{◌++◌}
use tvk_plugins.Prelude.{ℕ, String, Bool, true, false, Option, none, some, List, [], ◌∷◌, ◌==◌}
use tvk_plugins.Prelude.Tests.{if◌then◌else◌, nat_eq}
use tvk_plugins.Kube.Objects.{
  Labels, ObjectMeta, Container, Volume, VolumeMount, PodSecurity, Pod, PersistentVolumeClaim,
  VolumeSnapshot, absent, no_gvk, empty_pod_spec,
}
use tvk_plugins.Preflight.Options.{
  Run, label_k8s_part_of, label_k8s_part_of_value, label_trilio_key, label_tvk_preflight_value,
  label_preflight_run_key, label_k8s_name, label_k8s_name_value, storage_snapshot_group,
  busybox_container_name, busybox_registry, busybox_image_name, dns_container_name,
  gcr_registry_path, dns_utils_image, vol_mount_name, vol_mount_path, command_bin_sh,
  command_sleep_3600, args_touch_data_file_sleep, exec_restore_data_check_command,
}

unfoldable pub get_preflight_resource_labels : String → Labels
get_preflight_resource_labels uid =
    (label_k8s_name, label_k8s_name_value)
    ∷ (label_trilio_key, label_tvk_preflight_value)
    ∷ (label_preflight_run_key, uid)
    ∷ (label_k8s_part_of, label_k8s_part_of_value)
    ∷ []

unfoldable pub get_object_meta_template : String → String → String → ObjectMeta
get_object_meta_template name namespace uid = record {
  name = name;
  namespace = namespace;
  labels = get_preflight_resource_labels uid;
  finalizers = none;
}

unfoldable pub get_pod_template : String → String → Run → Pod
unfolding get_object_meta_template
get_pod_template name uid op = record {
  type_meta = no_gvk;
  meta = get_object_meta_template name op.namespace uid;
  spec = record empty_pod_spec {
    service_account_name = op.service_account_name;
    node_selector = op.pod_sched_ops.node_selector;
    affinity = op.pod_sched_ops.affinity;
    tolerations = op.pod_sched_ops.tolerations;
    image_pull_secrets = if op.image_pull_secret == "" then [] else op.image_pull_secret ∷ [];
  };
  conditions = [];
}

-- The busybox image, from the local registry if one is given.
unfoldable pub busybox_image : Run → String
busybox_image op =
    if op.local_registry == ""
    then busybox_registry ++ "/" ++ busybox_image_name
    else op.local_registry ++ "/" ++ busybox_image_name

abbrev pub with_spec : Pod → List Container → List Volume → Option PodSecurity → Pod
with_spec p cs vs sec = record p {
  spec = record p.spec { containers = cs; volumes = vs; security_context = sec };
}

abbrev data_mount : List VolumeMount
data_mount = record { name = vol_mount_name; mount_path = vol_mount_path } ∷ []

abbrev data_volume : String → List Volume
data_volume pvc_name =
    record { name = vol_mount_name; claim_name = pvc_name; read_only = false } ∷ []

unfoldable pub create_dns_pod_spec : Run → String → Pod
unfolding get_pod_template
create_dns_pod_spec op pod_name_suffix =
    with_spec (get_pod_template ("dnsutils-" ++ pod_name_suffix) pod_name_suffix op)
      (record {
        name = dns_container_name;
        image =
            (if op.local_registry == "" then gcr_registry_path else op.local_registry)
            ++ "/"
            ++ dns_utils_image;
        command = command_sleep_3600;
        args = [];
        image_pull_policy = some "IfNotPresent";
        resources = op.resource_requirements;
        volume_mounts = [];
        readiness_probe = none;
        security_context = none;
      }
        ∷ [])
      [] none

unfoldable pub create_volume_snapshot_pvc_spec : Run → String → String → PersistentVolumeClaim
unfolding get_object_meta_template
create_volume_snapshot_pvc_spec o pvc_name uid = record {
  type_meta = no_gvk;
  meta = get_object_meta_template pvc_name o.namespace uid;
  access_modes = "ReadWriteOnce" ∷ [];
  storage_class_name = o.storage_class;
  storage_request = o.pvc_storage_request;
  data_source = none;
}

unfoldable pub create_volume_snapshot_pod_spec : String → Run → String → Pod
unfolding get_pod_template busybox_image
create_volume_snapshot_pod_spec pvc_name op name_suffix =
    with_spec (get_pod_template ("source-pod-" ++ name_suffix) name_suffix op)
      (record {
        name = busybox_container_name;
        image = busybox_image op;
        command = command_bin_sh;
        args = args_touch_data_file_sleep;
        image_pull_policy = none;
        resources = op.resource_requirements;
        volume_mounts = data_mount;
        readiness_probe =
            some (record {
              initial_delay_seconds = 30;
              exec_command = exec_restore_data_check_command;
            });
        security_context = none;
      }
        ∷ [])
      (data_volume pvc_name) none

unfoldable pub create_volume_snapsot_spec :
    String → String → String → String → String → String → VolumeSnapshot
unfolding get_object_meta_template
create_volume_snapsot_spec name snapshot_class namespace snap_ver pvc_name uid = record {
  gvk = record { group = storage_snapshot_group; version = snap_ver; kind = "VolumeSnapshot" };
  meta = record {
    name = name;
    namespace = namespace;
    labels = get_preflight_resource_labels uid;
    finalizers = none;
  };
  volume_snapshot_class_name = snapshot_class;
  persistent_volume_claim_name = pvc_name;
  ready_to_use = absent;
}

unfoldable pub create_restore_pvc_spec : String → String → String → Run → PersistentVolumeClaim
unfolding get_object_meta_template
create_restore_pvc_spec pvc_name ds_name uid o = record {
  type_meta = no_gvk;
  meta = record {
    name = pvc_name;
    namespace = o.namespace;
    labels = get_preflight_resource_labels uid;
    finalizers = none;
  };
  access_modes = "ReadWriteOnce" ∷ [];
  storage_class_name = o.storage_class;
  storage_request = o.pvc_storage_request;
  data_source =
      some (record { kind = "VolumeSnapshot"; name = ds_name; api_group = storage_snapshot_group });
}

unfoldable pub create_restore_pod_spec : String → String → String → Run → Pod
unfolding get_pod_template busybox_image
create_restore_pod_spec pod_name pvc_name uid op =
    with_spec (get_pod_template pod_name uid op)
      (record {
        name = busybox_container_name;
        image = busybox_image op;
        command = command_sleep_3600;
        args = [];
        image_pull_policy = some "IfNotPresent";
        resources = op.resource_requirements;
        volume_mounts = data_mount;
        readiness_probe = none;
        security_context = none;
      }
        ∷ [])
      (data_volume pvc_name) none

pub record Capability : Type 0 where
  pub user_id : ℕ
  pub allow_privilege_escalation : Bool
  pub privileged : Bool

-- `createPodSpecWithCapability`: `podName` also becomes the run label of the pod.
unfoldable pub create_pod_spec_with_capability : Run → String → Capability → Pod
unfolding get_pod_template busybox_image
create_pod_spec_with_capability op pod_name capability =
    with_spec (get_pod_template ("pod-capability-" ++ pod_name) pod_name op)
      (record {
        name = busybox_container_name;
        image = busybox_image op;
        command = command_sleep_3600;
        args = [];
        image_pull_policy = some "IfNotPresent";
        resources = op.resource_requirements;
        volume_mounts = [];
        readiness_probe = none;
        security_context = some (record {
          add =
              "KILL" ∷ "AUDIT_WRITE" ∷ "NET_BIND_SERVICE" ∷ "CHOWN" ∷ "FOWNER" ∷ "DAC_OVERRIDE"
              ∷ "SETGID" ∷ "SETUID" ∷ "SYS_ADMIN" ∷ [];
          allow_privilege_escalation = capability.allow_privilege_escalation;
          read_only_root_filesystem = false;
          privileged = capability.privileged;
        });
      }
        ∷ [])
      []
      (some (
        if nat_eq capability.user_id 0
        then record { run_as_non_root = false; run_as_user = none }
        else record { run_as_non_root = true; run_as_user = some capability.user_id }))
