-- ===== src/Preflight/Resources.antt =====
-- Deletion with removal of finalizers, resource-name suffixes and lookups of API groups:
-- tools/preflight/helper.go, `CreateResourceNameSuffix` of tools/preflight/preflight.go, and
-- `CheckIsOpenshift` of internal/utils.go.

pub mod Keeps
pub mod Suffix
use Prim.Native.String.{◌++◌}
use tvk_plugins.Prelude.{
  ℕ, zero, suc, String, Bool, true, not, ◌&&◌, none, some, List, [], ◌∷◌, ◌==◌,
}
use mathlib.Core.List
use tvk_plugins.Prelude.Tests.{if◌then◌else◌}
use tvk_plugins.Kube.Objects.{
  GroupVersionKind, Object, pod, claim, unstructured, object_meta, object_kind, no_gvk,
}
use tvk_plugins.Kube.Calls.{failed, no_preferred_version, is_not_found, Result, ok, err, Call}
use tvk_plugins.Kube.Cluster.{ApiGroup}
use tvk_plugins.Preflight.Exec.{Exec, pure, raise, lift, ask, try, ◌>>=◌, on_option}
use tvk_plugins.Preflight.Platform.{Platform}

-- `gvk.Empty()`
unfoldable pub is_empty_gvk : GroupVersionKind → Bool
is_empty_gvk g = g.group == "" && g.version == "" && g.kind == ""

unfoldable pub get_obj_gvk_from_structured_type : Object → GroupVersionKind
get_obj_gvk_from_structured_type (pod _) = record { group = ""; version = "v1"; kind = "Pod" }
get_obj_gvk_from_structured_type (claim _) = record {
  group = "";
  version = "v1";
  kind = "PersistentVolumeClaim";
}
get_obj_gvk_from_structured_type (unstructured _) = no_gvk

-- The kind under which `removeFinalizer` fetches the object.
unfoldable pub finalizer_gvk : Object → GroupVersionKind
unfolding is_empty_gvk get_obj_gvk_from_structured_type
finalizer_gvk obj =
    if is_empty_gvk (object_kind obj) then get_obj_gvk_from_structured_type obj else object_kind obj

abbrev pub letter_bytes : String
letter_bytes = "abcdefghijklmnopqrstuvwxyz"

-- `letterBytes[idx]`, an error where Go panics
unfoldable pub letter_at : ℕ → String → Result String
letter_at i String.[] = err (failed "index out of range")
letter_at zero (String.◌∷◌ c s) = ok (String.◌∷◌ c String.[])
letter_at (suc i) (String.◌∷◌ c s) = letter_at i s

-- The first group of that name decides, also where its version is empty.
unfoldable pub preferred_version : String → List ApiGroup → String
preferred_version grp [] = ""
preferred_version grp (g ∷ gs) =
    if g.name == grp then g.preferred_version else preferred_version grp gs

unfoldable pub versions_of_group : String → List ApiGroup → List String
versions_of_group grp [] = []
versions_of_group grp (g ∷ gs) =
    let rest = versions_of_group grp gs in if g.name == grp then List.◌++◌ g.versions rest else rest

unfoldable pub openshift_of : Result (List String) → Bool
openshift_of (ok _) = true
openshift_of (err e) = not (is_not_found e)

module _ (p : Platform) where
  unfoldable pub remove_finalizer : Object → Exec (Unit {0})
  unfolding finalizer_gvk
  remove_finalizer obj =
      let gvk = finalizer_gvk obj in
      let meta = object_meta obj in
      on_option meta.finalizers (pure tt) (λ _. (do
        updated ←
            ask (Call.get_object gvk meta.name meta.namespace)
              (λ h. p.get_object h gvk meta.name meta.namespace)
        patched ←
            ask (Call.patch gvk updated.meta.name updated.meta.namespace)
              (λ h. p.patch h gvk updated.meta.name updated.meta.namespace)
        pure tt))

  unfoldable pub delete_k8s_resource : Object → Exec (Unit {0})
  unfolding remove_finalizer
  delete_k8s_resource obj = do
    deleted ← ask (Call.delete obj) (λ h. p.delete h obj)
    remove_finalizer obj

  -- The loop of `CreateResourceNameSuffix` over the bytes left.
  unfoldable pub random_letters : ℕ → Exec String
  unfolding letter_at
  random_letters zero = pure ""
  random_letters (suc n) = do
    rand_num ← ask Call.random (λ h. p.random h)
    letter ← lift (letter_at rand_num letter_bytes)
    rest ← random_letters n
    pure (letter ++ rest)

  unfoldable pub create_resource_name_suffix : Exec String
  unfolding random_letters
  create_resource_name_suffix = random_letters 6

  -- `cl.ServerGroups()` where an error ends the caller
  unfoldable pub server_groups : Exec (List ApiGroup)
  server_groups = do
    reply ← ask Call.server_groups (λ h. ok (p.server_groups h))
    on_option reply.1 (pure reply.0) raise

  unfoldable pub get_server_preferred_version_for_group : String → Exec String
  unfolding preferred_version server_groups
  get_server_preferred_version_for_group grp = do
    groups ← server_groups
    let version = preferred_version grp groups
    if version == "" then raise (no_preferred_version grp) else pure version

  unfoldable pub get_versions_of_group : String → Exec (List String)
  unfolding versions_of_group server_groups
  get_versions_of_group grp = do groups ← server_groups; pure (versions_of_group grp groups)

  unfoldable pub check_is_openshift : String → Exec Bool
  unfolding openshift_of
  check_is_openshift gv = do
    r ← try (ask (Call.server_resources gv) (λ h. p.server_resources h gv))
    pure (openshift_of r)
