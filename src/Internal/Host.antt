-- ===== src/Internal/Host.antt =====
-- What the shared code uses of the operating system and of the Kubernetes libraries, as parameters.
use tvk_plugins.Prelude.{ℕ, String, Bool, Option}
use tvk_plugins.Kube.Objects.{Opaque}
use tvk_plugins.Kube.Calls.{Result}

-- `rest.Config`; `no_warnings` is its warning handler.
pub record RestConfig : Type 0 where
  pub source : Opaque
  pub no_warnings : Bool

-- `Accessor`; two of its clients are compared with nil.
pub record Accessor : Type 0 where
  pub rest_config : RestConfig
  pub set : Option Opaque
  pub client : Option Opaque
  pub discovery_client : Opaque

-- `os.LookupEnv`, `homedir.Expand`, the size in `os.Stat`, `clientcmd.BuildConfigFromFlags`,
-- `config.GetConfigOrDie` (an error ends the program) and the constructors of the clients.
pub record Host : Type 0 where
  pub lookup_env : String → Option String
  pub expand : String → Result String
  pub stat_size : String → Result ℕ
  pub build_config_from_flags : String → Result RestConfig
  pub get_config_or_die : Result RestConfig
  pub new_clientset : RestConfig → Result (Option Opaque)
  pub new_dynamic_rest_mapper : RestConfig → Result Opaque
  pub new_client : RestConfig → Opaque → Result (Option Opaque)
  pub new_discovery_client : RestConfig → Result Opaque

abbrev pub get_rest_config : Accessor → RestConfig
get_rest_config a = a.rest_config

abbrev pub get_runtime_client : Accessor → Option Opaque
get_runtime_client a = a.client

abbrev pub get_clientset : Accessor → Option Opaque
get_clientset a = a.set

abbrev pub get_discovery_client : Accessor → Opaque
get_discovery_client a = a.discovery_client
