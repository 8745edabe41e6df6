-- ===== src/Preflight/Cleanup/Granted.antt =====
-- A cleanup against a server that refuses nothing (tools/preflight/cleanup.go).
use tvk_plugins.Prelude.{
  String, Bool, true, ◌&&◌, Option, none, some, List, [], ◌∷◌, ◌≡◌, refl, ◌∙◌, ap,
}
use tvk_plugins.Kube.Objects.{Labels, GroupVersionKind, Unstructured, Object, object_meta}
use tvk_plugins.Kube.Calls.{Call, Result, ok, err, is_not_found}
use tvk_plugins.Action.Inversion.{bind-eq}
use tvk_plugins.Preflight.Exec.{State, Exec, pure, ask, try, continue, ◌>>=◌, on_option, on_result}
use tvk_plugins.Preflight.Options.{storage_snapshot_group}
use tvk_plugins.Preflight.Platform.{Platform}
use tvk_plugins.Preflight.Resources.{
  finalizer_gvk, delete_k8s_resource, remove_finalizer, versions_of_group,
}
use tvk_plugins.Preflight.Cleanup.Kinds.{gvk_list_lem}
use tvk_plugins.Preflight.Cleanup.{
  Cleanup, res_labels, delete_ns, cleanup_kinds, clean_objects, clean_kinds,
  cleanup_preflight_resources,
}

-- No error, or that the object is not there.
abbrev pub IsGranted {ℓ} : {A : Type ℓ} → Result A → Type 0
IsGranted (ok _) = Unit
IsGranted (err e) = is_not_found e ≡ true

-- A server that answers what is asked: it lists, and deletes, returns and patches what is there.
pub record IsWilling (p : Platform) : Type 0 where
  pub groups : (h : List Call) → (p.server_groups h).1 ≡ none
  pub lists :
      (h : List Call) (g : GroupVersionKind) (labels : Labels) (ns : String)
      → (objs : List Unstructured) × (p.list_objects h g labels ns ≡ ok objs)
  pub deletes : (h : List Call) (x : Object) → IsGranted (p.delete h x)
  pub fetches :
      (h : List Call) (g : GroupVersionKind) (n ns : String) → IsGranted (p.get_object h g n ns)
  pub patches :
      (h : List Call) (g : GroupVersionKind) (n ns : String) → IsGranted (p.patch h g n ns)

module _ {A B : Type 0} where
  continue-IsGranted :
      (r : Result A) (k : A → Exec B) (t : State)
      → IsGranted r
      → ((a : A) (u : State) → IsGranted (k a u).0)
      → IsGranted (continue r k t).0
  continue-IsGranted (ok a) k t granted later = later a t
  continue-IsGranted (err e) k t granted later = granted

  asked-IsGranted :
      (c : Call) (reply : List Call → Result A) (k : A → Exec B) (s : State)
      → ((h : List Call) → IsGranted (reply h))
      → ((a : A) (u : State) → IsGranted (k a u).0)
      → IsGranted ((ask c reply >>= k) s).0
  unfolding ◌>>=◌ ask
  asked-IsGranted c reply k s granted later =
      continue-IsGranted (reply s.calls) k _ (granted s.calls) later

present-IsGranted :
    {A : Type 0} (o : Option A) (m : A → Exec (Unit {0})) (s : State)
    → ((a : A) → IsGranted (m a s).0)
    → IsGranted (on_option o (pure tt) m s).0
unfolding on_option pure
present-IsGranted none m s later = tt
present-IsGranted (some a) m s later = later a

module _ (p : Platform) (willing : IsWilling p) where
  remove_finalizer-IsGranted : (obj : Object) (s : State) → IsGranted (remove_finalizer p obj s).0
  unfolding remove_finalizer pure
  remove_finalizer-IsGranted obj s =
      let meta = object_meta obj in
      present-IsGranted meta.finalizers _ s (λ f.
        asked-IsGranted _ _ _ s
          (λ h. willing.fetches h (finalizer_gvk obj) meta.name meta.namespace)
          (λ u t.
            asked-IsGranted _ _ _ t
              (λ h. willing.patches h (finalizer_gvk obj) u.meta.name u.meta.namespace)
              (λ a v. tt)))

  delete-IsGranted : (obj : Object) (s : State) → IsGranted (delete_k8s_resource p obj s).0
  unfolding delete_k8s_resource
  delete-IsGranted obj s =
      asked-IsGranted _ _ _ s (λ h. willing.deletes h obj) (λ a t. remove_finalizer-IsGranted obj t)

  -- `m` returns true.
  record Succeeds (m : Exec Bool) : Type 0 where
    at : (s : State) → (m s).0 ≡ ok true

  Succeeds-bind :
      {A : Type 0} (m : Exec A) (k : A → Exec Bool)
      → ((s : State) → (a : A) × ((m s).0 ≡ ok a) × Succeeds (k a))
      → Succeeds (m >>= k)
  Succeeds-bind m k h = record {
    at = λ s. (let (a, e, later) = h s in ap (λ z. z.0) (bind-eq m k s e) ∙ later.at (m s).1);
  }

  Succeeds-pure : Succeeds (pure true)
  unfolding pure
  Succeeds-pure = record { at = λ s. refl }

  combined-Succeeds :
      (r : Result (Unit {0}))
      → IsGranted r
      → Succeeds (on_result r (λ e. pure (is_not_found e && true)) (λ _. pure true))
  unfolding on_result
  combined-Succeeds (ok _) granted = Succeeds-pure
  combined-Succeeds (err e) granted = rw granted Succeeds-pure

  clean_objects-Succeeds : (l : List Unstructured) → Succeeds (clean_objects p l)
  unfolding clean_objects try
  clean_objects-Succeeds [] = Succeeds-pure
  clean_objects-Succeeds (x ∷ l) = Succeeds-bind _ _ (λ s. (
    (delete_k8s_resource p (Object.unstructured x) s).0,
    refl,
    Succeeds-bind _ _ (λ t. (
      true,
      (clean_objects-Succeeds l).at t,
      combined-Succeeds _ (delete-IsGranted (Object.unstructured x) s),
    )),
  ))

  clean_kinds-Succeeds :
      (labels : Labels) (ns : String) (gs : List GroupVersionKind)
      → Succeeds (clean_kinds p labels ns gs)
  unfolding clean_kinds try ask on_result
  clean_kinds-Succeeds labels ns [] = Succeeds-pure
  clean_kinds-Succeeds labels ns (g ∷ gs) = Succeeds-bind _ _ (λ s.
      (let (objs, e) = willing.lists s.calls g labels ns in
        (
          ok objs,
          ap ok e,
          Succeeds-bind _ _ (λ t. (
            true,
            (clean_objects-Succeeds objs).at t,
            Succeeds-bind _ _
                (λ u. (true, (clean_kinds-Succeeds labels ns gs).at u, Succeeds-pure)),
          )),
        )))

  -- Where the server can read its API groups, lists, and deletes, returns and patches whatever is
  -- there, or says that it is not there, a cleanup returns no error.
  pub cleanup-succeeds : (co : Cleanup) (s : State) → (cleanup_preflight_resources p co s).0 ≡ ok tt
  unfolding cleanup_preflight_resources pure
  cleanup-succeeds co s =
      let kinds =
        cleanup_kinds (versions_of_group storage_snapshot_group (p.server_groups s.calls).0) in
      let t = record s { calls = Call.server_groups ∷ s.calls } in
      ap (λ z. z.0)
        (bind-eq _ _ s (ap (λ z. z.0) (gvk_list_lem p s (willing.groups s.calls)))
          ∙ bind-eq _ _ _ ((clean_kinds-Succeeds (res_labels co) (delete_ns co) kinds).at _))
