-- ===== src/Cmd/Flags.antt =====
-- The flags of cmd/preflight/cmd (root.go, run.go, cleanup.go, constants.go), the two structs that
-- they end in, and the errors of their handling.
use tvk_plugins.Prelude.{String, Bool}
use tvk_plugins.Kube.Objects.{Quantity}
use tvk_plugins.Kube.Calls.{Error, Result}
use tvk_plugins.Preflight.Options.{Run}
use tvk_plugins.Preflight.Cleanup.{Cleanup}

-- The package variables that the flags set; `changed` is `cmd.Flags().Changed`.
pub record Flags : Type 0 where
  pub changed : String → Bool
  pub kubeconfig : String
  pub namespace : String
  pub log_level : String
  pub storage_class : String
  pub snapshot_class : String
  pub local_registry : String
  pub image_pull_secret : String
  pub service_account : String
  pub cleanup_on_failure : Bool
  pub input_file_name : String
  pub pod_limits : String
  pub pod_requests : String
  pub pvc_storage_request : String
  pub node_selector : String
  pub cleanup_uid : String
  pub in_cluster : Bool

pub record PreflightCmdOps : Type 0 where
  pub run : Run
  pub cleanup : Cleanup

pub data CmdError : Type 0 where
  library : Error → CmdError
  label_syntax : String → CmdError
  resource_syntax : String → CmdError
  reading_input : Error → CmdError
  updating_node_selector : CmdError → CmdError
  storage_class_required : CmdError
  secret_without_registry : CmdError
  memory_above_limit : CmdError
  cpu_above_limit : CmdError
  invalid_uid : CmdError
  -- `resource.MustParse` of a text that is no quantity
  panicked : Error → CmdError

-- A refused command ends the program, so no state is kept with it.
pub data Outcome (A : Type 0) : Type 0 where
  done : A → Outcome A
  refused : CmdError → Outcome A

module _ {A B : Type 0} where
  unfoldable pub continue : Outcome A → (A → Outcome B) → Outcome B
  continue (done a) f = f a
  continue (refused e) f = refused e

  infixl 10 ◌>>=◌
  unfoldable pub ◌>>=◌ : Outcome A → (A → Outcome B) → Outcome B
  unfolding continue
  m >>= f = continue m f

module _ {A : Type 0} where
  unfoldable pub from_result : (Error → CmdError) → Result A → Outcome A
  from_result f (Result.ok a) = done a
  from_result f (Result.err e) = refused (f e)

-- What the commands use of `resource.Quantity`, of the file system and of the YAML library.
-- `zero` is the quantity that `Cpu()` and `Memory()` return for a missing key, `is_zero` is
-- `Value() == 0`, and the last two compare two quantities by `Value` and by `AsApproximateFloat64`.
-- `unmarshal_strict` reads a text into the options that are there.
pub record Libraries : Type 0 where
  pub parse_quantity : String → Result Quantity
  pub zero : Quantity
  pub is_zero : Quantity → Bool
  pub value_above : Quantity → Quantity → Bool
  pub float_above : Quantity → Quantity → Bool
  pub read_file : String → Result String
  pub unmarshal_strict : String → PreflightCmdOps → Result PreflightCmdOps

abbrev pub namespace_flag : String
namespace_flag = "namespace"

abbrev pub kubeconfig_flag : String
kubeconfig_flag = "kubeconfig"

abbrev pub log_level_flag : String
log_level_flag = "log-level"

abbrev pub in_cluster_flag : String
in_cluster_flag = "in-cluster"

abbrev pub storage_class_flag : String
storage_class_flag = "storage-class"

abbrev pub snapshot_class_flag : String
snapshot_class_flag = "volume-snapshot-class"

abbrev pub local_registry_flag : String
local_registry_flag = "local-registry"

abbrev pub image_pull_sec_flag : String
image_pull_sec_flag = "image-pull-secret"

abbrev pub service_account_flag : String
service_account_flag = "service-account"

abbrev pub cleanup_on_failure_flag : String
cleanup_on_failure_flag = "cleanup-on-failure"

abbrev pub pvc_storage_request_flag : String
pvc_storage_request_flag = "pvc-storage-request"

abbrev pub node_selector_flag : String
node_selector_flag = "node-selector"

abbrev pub uid_flag : String
uid_flag = "uid"
