-- ===== src/Preflight/Versions.antt =====
-- Version checks: `extractVersionFromString`, `GetHelmVersion`, `getSemverVersion` and
-- `getPrefSnapshotClassVersion` of tools/preflight/helper.go; `validateKubectl`, the helm checks,
-- `validateKubernetesVersion` and `validateKubernetesRBAC` of tools/preflight/preflight.go.
pub mod Keeps
pub mod Rbac
pub mod Extract
use Prim.Native.Char.{code}
use Prim.Native.String.{◌++◌, count}
use tvk_plugins.Prelude.{
  ℕ, zero, suc, ◌-◌, String, Bool, true, ◌&&◌, Option, none, some, List, [], ◌∷◌, ◌==◌,
}
use tvk_plugins.Prelude.Tests.{if◌then◌else◌, leb, nat_eq}
use tvk_plugins.Kube.Calls.{
  no_version_found, invalid_semver, binary_not_found, namespace_inaccessible, helm_too_old,
  kubernetes_too_old, rbac_not_enabled, is_group_discovery_failed, Result, ok, err, Call,
}
use tvk_plugins.Kube.Cluster.{Version}
use tvk_plugins.Preflight.Exec.{
  helm, Exec, pure, raise, lift, ask, try, log_verdict, ◌>>=◌, ◌>>◌, on_result, on_option,
}
use tvk_plugins.Preflight.Options.{min_helm_version, min_server_ver_for_v1_crd_version}
use tvk_plugins.Preflight.Platform.{Platform}
use tvk_plugins.Preflight.Resources.{check_is_openshift}

abbrev pub is_digit : ℕ → Bool
is_digit c = leb b'0' c && leb c b'9'

-- A matcher returns the text that it takes from the front of its input.
abbrev pub Matcher : Type 0
Matcher = String → Option String

abbrev pub or_else : Option String → Option String → Option String
or_else (some t) other = some t
or_else none other = other

abbrev pub prefixed : Prim.Native.Char.Char → Option String → Option String
prefixed c none = none
prefixed c (some t) = some (String.◌∷◌ c t)

-- `\d+` and what follows: as many digits as possible, fewer if what follows does not match.
unfoldable pub digits : Matcher → Matcher
digits k String.[] = none
digits k (String.◌∷◌ c s) =
    let more = digits k s in if is_digit (code c) then prefixed c (or_else more (k s)) else none

-- `.`, which matches every character but a newline
unfoldable pub any_char : Matcher → Matcher
any_char k String.[] = none
any_char k (String.◌∷◌ c s) = if nat_eq (code c) b'\n' then none else prefixed c (k s)

-- `versionRegexpCompile`, "v\\d+.\\d+.\\d+", at the front of the input
unfoldable pub version_regexp : Matcher
unfolding digits any_char
version_regexp String.[] = none
version_regexp (String.◌∷◌ c s) =
    if nat_eq (code c) b'v'
    then prefixed c (digits (any_char (digits (any_char (digits (λ rest. some ""))))) s)
    else none

-- `FindAllStringSubmatch`: the matches from left to right that do not overlap. The number counts
-- the characters left of the match found last.
unfoldable pub find_all : Matcher → ℕ → String → List String
find_all m skip String.[] = []
find_all m (suc skip) (String.◌∷◌ c s) = find_all m skip s
find_all m zero (String.◌∷◌ c s) = elim (m (String.◌∷◌ c s)) [
  | some t ↦ t ∷ find_all m (count t - 1) s
  | none ↦ find_all m zero s
]

-- `version[1:]` of the last match
unfoldable pub last_version : List String → Result String
last_version [] = err no_version_found
last_version (t ∷ []) = elim t [ String.[] ↦ ok "" | String.◌∷◌ c s ↦ ok s ]
last_version (t ∷ u ∷ ts) = last_version (u ∷ ts)

unfoldable pub extract_version_from_string : String → Result String
unfolding version_regexp find_all last_version
extract_version_from_string str = last_version (find_all version_regexp zero str)

module _ (p : Platform) where
  unfoldable pub get_helm_version : String → Exec String
  get_helm_version binary_name = do
    let cmd = binary_name ++ " version --template '{{.Version}}'"
    out ← ask (Call.run_cmd cmd) (λ h. p.run_cmd h cmd)
    lift (extract_version_from_string out)

  unfoldable pub get_semver_version : String → Exec Version
  get_semver_version ver = do
    sem_ver ← lift (p.new_semver ver)
    on_option sem_ver (raise (invalid_semver ver)) pure

  unfoldable pub get_pref_snapshot_class_version : String → Exec String
  unfolding get_semver_version
  get_pref_snapshot_class_version server_version = do
    current ← get_semver_version server_version
    min_v1 ← get_semver_version min_server_ver_for_v1_crd_version
    pure (if p.less_than current min_v1 then "v1beta1" else "v1")

  unfoldable pub find_binary : String → Exec (Unit {0})
  find_binary binary_name = do
    r ← try (ask (Call.look_path binary_name) (λ h. p.look_path h binary_name))
    on_result r (λ e. raise (binary_not_found binary_name e)) (λ path. pure tt)

  unfoldable pub validate_kubectl : String → Exec (Unit {0})
  unfolding find_binary
  validate_kubectl binary_name = find_binary binary_name

  unfoldable pub validate_helm_binary : String → Exec (Unit {0})
  unfolding find_binary
  validate_helm_binary binary_name = find_binary binary_name

  unfoldable pub validate_cluster_access : String → Exec (Unit {0})
  validate_cluster_access namespace = do
    r ← try (ask (Call.get_namespace namespace) (λ h. p.get_namespace h namespace))
    on_result r (λ e. raise (namespace_inaccessible e)) (λ _. pure tt)

  unfoldable pub validate_helm_version : String → Exec (Unit {0})
  validate_helm_version cur_version = do
    v1 ← lift (p.new_version min_helm_version)
    v2 ← lift (p.new_version cur_version)
    if p.less_than v2 v1 then raise helm_too_old else pure tt

  unfoldable pub validate_system_helm_version : String → Exec (Unit {0})
  unfolding validate_helm_binary get_helm_version validate_helm_version check_is_openshift
  validate_system_helm_version binary_name = do
    openshift ← check_is_openshift p "security.openshift.io/v1"
    if openshift then pure tt else do
      validate_helm_binary binary_name
      cur_version ← get_helm_version "helm"
      validate_helm_version cur_version
      log_verdict helm true

  unfoldable pub validate_kubernetes_version : String → Exec (Unit {0})
  validate_kubernetes_version min_version = do
    server_ver ← ask Call.server_version (λ h. p.server_version h)
    v1 ← lift (p.new_version min_version)
    v2 ← lift (p.new_version server_ver.git_version)
    if p.less_than v2 v1 then raise kubernetes_too_old else pure tt

  -- The loop over the API versions: one that does not parse ends the check with no error.
  unfoldable pub find_api_version : String → String → List String → Exec (Unit {0})
  find_api_version group version [] = raise rbac_not_enabled
  find_api_version group version (apiver ∷ rest) =
      let go_on = find_api_version group version rest in
      on_result (p.parse_group_version apiver) (λ _. pure tt)
        (λ gv. if gv.0 == group && gv.1 == version then pure tt else go_on)

  unfoldable pub validate_kubernetes_rbac : String → String → Exec (Unit {0})
  unfolding find_api_version
  validate_kubernetes_rbac api_group api_version = do
    reply ← ask Call.server_groups (λ h. ok (p.server_groups h))
    let search_groups = find_api_version api_group api_version (p.extract_group_versions reply.0)
    on_option reply.1 search_groups
        (λ e. if is_group_discovery_failed e then search_groups else raise e)
