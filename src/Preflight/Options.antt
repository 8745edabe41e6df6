-- ===== src/Preflight/Options.antt =====
-- The inputs of a preflight run (`Run`, `RunOptions`, `CommonOptions`, `podSchedulingOptions` of
-- tools/preflight/preflight.go and tools/preflight/helper.go) and the constants of helper.go.
use tvk_plugins.Prelude.{String, Bool, Option, List, [], ◌∷◌}
use tvk_plugins.Kube.Objects.{Quantity, Opaque, Labels, ResourceRequirements}

pub record CommonOptions : Type 0 where
  pub kubeconfig : String
  pub namespace : String
  pub log_level : String
  pub in_cluster : Bool

pub record PodSchedulingOptions : Type 0 where
  pub node_selector : Labels
  pub affinity : Option Opaque
  pub tolerations : List Opaque

pub record RunOptions : Type 0 where
  pub storage_class : String
  pub snapshot_class : String
  pub local_registry : String
  pub image_pull_secret : String
  pub service_account_name : String
  pub perform_cleanup_on_fail : Bool
  pub pvc_storage_request : Quantity
  pub resource_requirements : ResourceRequirements
  pub pod_sched_ops : PodSchedulingOptions

pub record Run : Type 0 where
  pub run_options : RunOptions
  pub open run_options use *
  pub common_options : CommonOptions
  pub open common_options use *

abbrev pub min_helm_version : String
min_helm_version = "3.0.0"

abbrev pub min_k8s_version : String
min_k8s_version = "1.19.0"

abbrev pub rbac_api_group : String
rbac_api_group = "rbac.authorization.k8s.io"

abbrev pub rbac_api_version : String
rbac_api_version = "v1"

abbrev pub label_k8s_part_of : String
label_k8s_part_of = "app.kubernetes.io/part-of"

abbrev pub label_k8s_part_of_value : String
label_k8s_part_of_value = "k8s-triliovault"

abbrev pub label_trilio_key : String
label_trilio_key = "trilio"

abbrev pub label_tvk_preflight_value : String
label_tvk_preflight_value = "tvk-preflight"

abbrev pub label_preflight_run_key : String
label_preflight_run_key = "preflight-run"

abbrev pub label_k8s_name : String
label_k8s_name = "app.kubernetes.io/name"

abbrev pub label_k8s_name_value : String
label_k8s_name_value = "k8s-triliovault"

abbrev pub storage_snapshot_group : String
storage_snapshot_group = "snapshot.storage.k8s.io"

abbrev pub busybox_container_name : String
busybox_container_name = "busybox"

abbrev pub busybox_registry : String
busybox_registry = "quay.io/triliodata"

abbrev pub busybox_image_name : String
busybox_image_name = "busybox"

abbrev pub dns_container_name : String
dns_container_name = "dnsutils"

abbrev pub gcr_registry_path : String
gcr_registry_path = "gcr.io/kubernetes-e2e-test-images"

abbrev pub dns_utils_image : String
dns_utils_image = "dnsutils:1.3"

abbrev pub vol_mount_name : String
vol_mount_name = "source-data"

abbrev pub vol_mount_path : String
vol_mount_path = "/demo/data"

abbrev pub min_server_ver_for_v1_crd_version : String
min_server_ver_for_v1_crd_version = "v1.20.0"

abbrev pub command_bin_sh : List String
command_bin_sh = "bin/sh" ∷ "-c" ∷ []

abbrev pub command_sleep_3600 : List String
command_sleep_3600 = "sleep" ∷ "3600" ∷ []

abbrev pub args_touch_data_file_sleep : List String
args_touch_data_file_sleep =
    "echo 'pod preflight data' > /demo/data/sample-file.txt && sync /demo/data/sample-file.txt && sleep 3000"
    ∷ []

abbrev pub exec_restore_data_check_command : List String
exec_restore_data_check_command =
    "/bin/sh" ∷ "-c"
    ∷ "dat=$(cat \"/demo/data/sample-file.txt\"); echo \"${dat}\"; if [[ \"${dat}\" == \"pod preflight data\" ]]; then exit 0; else exit 1; fi"
    ∷ []

abbrev pub exec_dns_resolution_cmd : List String
exec_dns_resolution_cmd = "nslookup" ∷ "kubernetes.default" ∷ []

abbrev pub volume_snapshot_crds : List String
volume_snapshot_crds =
    "volumesnapshotclasses.snapshot.storage.k8s.io"
    ∷ "volumesnapshotcontents.snapshot.storage.k8s.io" ∷ "volumesnapshots.snapshot.storage.k8s.io"
    ∷ []
