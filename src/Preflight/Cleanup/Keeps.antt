-- ===== src/Preflight/Cleanup/Keeps.antt =====
-- What the cleanup keeps, from the calls that it makes and from what the server lists.
use tvk_plugins.Prelude.{String, false, List, [], ◌∷◌, ◌≡◌, refl}
use tvk_plugins.Prelude.Lists.{All}
use tvk_plugins.Kube.Objects.{Labels, GroupVersionKind, Object, Unstructured}
use tvk_plugins.Kube.Calls.{Call, Result, ok, err}
use tvk_plugins.Preflight.Exec.{State, pure, on_result}
use tvk_plugins.Preflight.Exec.Keeps.{
  Keeps, Stable, Keeps-bind, Keeps-try, Keeps-pure, Keeps-try-ask, keeps_rules,
}
use tvk_plugins.Preflight.Platform.{Platform}
use tvk_plugins.Preflight.Resources.Keeps.{delete_k8s_resource-Keeps, get_versions_of_group-Keeps}
use tvk_plugins.Preflight.Cleanup.{
  Cleanup, res_labels, delete_ns, clean_objects, clean_kinds, cleanup_preflight_resources,
}

-- Whatever the server lists for these labels in this namespace is `Good`.
abbrev pub ListsOnly : Platform → Labels → String → (Unstructured → Type 0) → Type 0
ListsOnly p labels ns Good =
    (h : List Call) (g : GroupVersionKind) (objs : List Unstructured)
    → p.list_objects h g labels ns ≡ ok objs
    → All Good objs

module _ {P : State → Type 0} {Q : Call → Type 0} (stable : Stable P Q) (p : Platform)
    {Good : Unstructured → Type 0}
    (qd : (u : Unstructured) → Good u → Q (Call.delete (Object.unstructured u)))
    (qg : (g : GroupVersionKind) (n ns : String) → Q (Call.get_object g n ns))
    (qp : (g : GroupVersionKind) (n ns : String) → Q (Call.patch g n ns)) where
  pub clean_objects-Keeps : (l : List Unstructured) → All Good l → Keeps P (clean_objects p l)
  unfolding clean_objects
  clean_objects-Keeps [] h = search keeps_rules
  clean_objects-Keeps (x ∷ l) (good, h) =
      Keeps-bind _ _ (Keeps-try _ (delete_k8s_resource-Keeps stable p _ (qd x good) qg qp))
        (λ r. Keeps-bind _ _ (clean_objects-Keeps l h) (λ b. search keeps_rules))

  clean_listed-Keeps :
      (r : Result (List Unstructured))
      → ((objs : List Unstructured) → r ≡ ok objs → All Good objs)
      → Keeps P (on_result r (λ e. pure false) (clean_objects p))
  unfolding on_result
  clean_listed-Keeps (ok objs) h = clean_objects-Keeps objs (h objs refl)
  clean_listed-Keeps (err e) h = Keeps-pure _

  module _ (labels : Labels) (ns : String) (lists : ListsOnly p labels ns Good)
      (ql : (g : GroupVersionKind) → Q (Call.list_objects g labels ns)) where
    pub clean_kinds-Keeps : (gs : List GroupVersionKind) → Keeps P (clean_kinds p labels ns gs)
    unfolding clean_kinds
    clean_kinds-Keeps [] = search keeps_rules
    clean_kinds-Keeps (g ∷ gs) = Keeps-try-ask stable _ _ _ (ql g) (λ h.
        Keeps-bind _ _ (clean_listed-Keeps (p.list_objects h g labels ns) (lists h g))
          (λ b. Keeps-bind _ _ (clean_kinds-Keeps gs) (λ c. search keeps_rules)))

  pub cleanup_preflight_resources-Keeps :
      (co : Cleanup)
      → ListsOnly p (res_labels co) (delete_ns co) Good
      → Q Call.server_groups
      → ((g : GroupVersionKind) → Q (Call.list_objects g (res_labels co) (delete_ns co)))
      → Keeps P (cleanup_preflight_resources p co)
  unfolding cleanup_preflight_resources
  cleanup_preflight_resources-Keeps co lists qs ql =
      Keeps-bind _ _ (search (keeps_rules, get_versions_of_group-Keeps stable p qs))
        (λ gvks. search (keeps_rules, clean_kinds-Keeps (res_labels co) (delete_ns co) lists ql))
