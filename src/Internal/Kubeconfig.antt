-- ===== src/Internal/Kubeconfig.antt =====
-- Which kubeconfig is used, and the clients made from it: internal/kube_helper.go.
pub mod Source
use tvk_plugins.Prelude.{ℕ, String, Bool, true, false, Option, none, some, ◌==◌}
use tvk_plugins.Prelude.Tests.{nat_eq, if◌then◌else◌}
use tvk_plugins.Kube.Calls.{
  Error, no_kubeconfig, creating_rest_config, is_not_found, Result, ok, err, and_then,
}
use tvk_plugins.Internal.Host.{RestConfig, Accessor, Host}

abbrev pub kubeconfig_env : String
kubeconfig_env = "KUBECONFIG"

module _ (p : Host) where
  -- Only a missing file is an error; any other error of `os.Stat` is passed over.
  unfoldable pub check_file_exists : String → Result (Unit {0})
  check_file_exists path = elim (p.stat_size path) [
    | err e ↦ if is_not_found e then err e else ok tt
    | ok size ↦ ok tt
  ]

  -- The path after `~` is expanded.
  unfoldable pub normalize_file : String → Result String
  unfolding check_file_exists
  normalize_file path =
      and_then (p.expand path)
        (λ expanded. and_then (check_file_exists expanded) (λ _. ok expanded))

  unfoldable pub new_config_from_commandline : String → Result String
  unfolding normalize_file
  new_config_from_commandline kube_config =
      if kube_config == ""
      then elim (p.lookup_env kubeconfig_env) [
        | some kube_conf ↦ normalize_file kube_conf
        | none ↦ err no_kubeconfig
      ]
      else normalize_file kube_config

  -- `KubeConfigDefault` is an argument.
  unfoldable pub get_kubeconfig_path : String → Bool → String
  get_kubeconfig_path kube_config_default use_default = elim (p.lookup_env kubeconfig_env) [
    | some kube_conf ↦ kube_conf
    | none ↦ if use_default then kube_config_default else ""
  ]

  -- The default configuration comes with the error of `os.Stat`: an empty file has none.
  unfoldable pub load_kube_config_or_die : String → Result RestConfig
  load_kube_config_or_die kube_config =
      if kube_config == "" then p.get_config_or_die else elim (p.stat_size kube_config) [
        | err e ↦ and_then p.get_config_or_die (λ _. err e)
        | ok size ↦
            if nat_eq size 0 then p.get_config_or_die else p.build_config_from_flags kube_config
      ]

  abbrev without_warnings : RestConfig → RestConfig
  without_warnings c = record c { no_warnings = true }

  -- A given configuration is used as it is.
  unfoldable pub rest_config_of : String → Option RestConfig → Result RestConfig
  unfolding load_kube_config_or_die
  rest_config_of kube_config (some c) = ok c
  rest_config_of kube_config none = elim (load_kube_config_or_die kube_config) [
    | err e ↦ err (creating_rest_config e)
    | ok c ↦ ok (without_warnings c)
  ]

  unfoldable pub new_accessor : String → Option RestConfig → Result Accessor
  unfolding rest_config_of
  new_accessor kube_config rest_config = and_then (rest_config_of kube_config rest_config) (λ c.
      and_then (p.new_clientset c) (λ set. and_then (p.new_dynamic_rest_mapper c) (λ mapper.
        and_then (p.new_client c mapper) (λ client.
          and_then (p.new_discovery_client c) (λ discovery. ok (record {
            rest_config = c;
            set = set;
            client = client;
            discovery_client = discovery;
          }))))))

  unfoldable pub new_env : String → Option RestConfig → Result Accessor
  unfolding new_config_from_commandline new_accessor
  new_env kube_config (some c) = new_accessor "" (some c)
  new_env kube_config none =
      and_then (new_config_from_commandline kube_config) (λ conf_path. new_accessor conf_path none)
