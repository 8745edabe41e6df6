-- ===== src/Preflight/Cleanup/Server.antt =====
-- An API server that keeps to its documentation, as what a cleanup relies on; and what
-- `deleteK8sResource` and `removeFinalizer` of tools/preflight/helper.go do against it.
use tvk_plugins.Prelude.{String, true, Option, none, some, List, ◌∷◌, ◌≡◌, refl, arith, eq_iff}
use tvk_plugins.Prelude.Lists.{Any}
use tvk_plugins.Kube.Objects.{Labels, GroupVersionKind, Unstructured, Object}
use tvk_plugins.Kube.Calls.{Call, Error, Result, ok, err, is_not_found}
use tvk_plugins.Preflight.Exec.{State, pure, ask, continue, ◌>>=◌, on_option}
use tvk_plugins.Preflight.Exec.Keeps.{Stable}
use tvk_plugins.Preflight.Platform.{Platform}
use tvk_plugins.Preflight.Resources.{
  finalizer_gvk, is_empty_gvk, delete_k8s_resource, remove_finalizer,
}
use tvk_plugins.Preflight.Cleanup.Scope.{Selects}

-- The calls that create nothing.
abbrev pub CreatesNothing : Call → Type 0
CreatesNothing Call.server_groups = Unit
CreatesNothing (Call.list_objects _ _ _) = Unit
CreatesNothing (Call.delete _) = Unit
CreatesNothing (Call.get_object _ _ _) = Unit
CreatesNothing (Call.patch _ _ _) = Unit
CreatesNothing _ = ⊥

-- What a listing of this kind, with these labels, in this namespace is to return.
pub record IsSelected (g : GroupVersionKind) (labels : Labels) (ns : String) (x : Unstructured)
    : Type 0 where
  pub of_kind : x.gvk ≡ g
  pub labelled : Selects labels x.meta.labels
  pub inside : x.meta.namespace ≡ ns

-- The API server as it is documented, where the calls `h` were made: `Stays h x` says that it holds
-- `x` and does not let it go, `Terminating h x` that the deletion of `x` was granted and that it goes
-- with its last finalizer. It may refuse any request, and objects may go at any time.
pub record ApiServer (p : Platform) (Stays Terminating : List Call → Unstructured → Type 0)
    : Type 0 where
  pub fewer :
      (h : List Call) (c : Call) (x : Unstructured) → CreatesNothing c → Stays (c ∷ h) x → Stays h x
  pub lists :
      (h : List Call) (g : GroupVersionKind) (labels : Labels) (ns : String)
      (objs : List Unstructured) (x : Unstructured)
      → p.list_objects h g labels ns ≡ ok objs
      → Stays h x
      → IsSelected g labels ns x
      → Any (λ y. x ≡ y) objs
  pub deletes :
      (h : List Call) (x : Unstructured) (reply : String)
      → p.delete h (Object.unstructured x) ≡ ok reply
      → x.meta.finalizers ≡ none
      → ¬ Stays (Call.delete (Object.unstructured x) ∷ h) x
  pub terminates :
      (h : List Call) (x : Unstructured) (reply : String)
      → p.delete h (Object.unstructured x) ≡ ok reply
      → Terminating (Call.delete (Object.unstructured x) ∷ h) x
  pub goes_on :
      (h : List Call) (c : Call) (x : Unstructured)
      → CreatesNothing c
      → Terminating h x
      → Terminating (c ∷ h) x
  pub fetches :
      (h : List Call) (g : GroupVersionKind) (name ns : String) (y : Unstructured)
      → p.get_object h g name ns ≡ ok y
      → (y.meta.name ≡ name) × (y.meta.namespace ≡ ns)
  pub patches :
      (h : List Call) (x : Unstructured) (reply : String)
      → p.patch h x.gvk x.meta.name x.meta.namespace ≡ ok reply
      → Terminating h x
      → ¬ Stays (Call.patch x.gvk x.meta.name x.meta.namespace ∷ h) x
  -- `NotFound` means that there is no such object.
  pub not_deleted :
      (h : List Call) (x : Unstructured) (e : Error)
      → p.delete h (Object.unstructured x) ≡ err e
      → is_not_found e ≡ true
      → ¬ Stays h x
  pub not_fetched :
      (h : List Call) (x : Unstructured) (e : Error)
      → p.get_object h x.gvk x.meta.name x.meta.namespace ≡ err e
      → is_not_found e ≡ true
      → ¬ Stays h x
  pub not_patched :
      (h : List Call) (x : Unstructured) (e : Error)
      → p.patch h x.gvk x.meta.name x.meta.namespace ≡ err e
      → is_not_found e ≡ true
      → ¬ Stays h x

finalizer_gvk_lem : (x : Unstructured) → finalizer_gvk (Object.unstructured x) ≡ x.gvk
unfolding finalizer_gvk is_empty_gvk
finalizer_gvk_lem x =
    ground (arith, eq_iff x.gvk.group "", eq_iff x.gvk.version "", eq_iff x.gvk.kind "")

-- A deletion that counts as done.
abbrev pub IsDone : Result (Unit {0}) → Type 0 → Type 0
IsDone (ok _) Gone = Gone
IsDone (err e) Gone = is_not_found e ≡ true → Gone

module _ (p : Platform) (Stays Terminating : List Call → Unstructured → Type 0)
    (server : ApiServer p Stays Terminating) where
  -- What follows from an object's staying follows from its staying longer.
  pub stays-Stable :
      (x : Unstructured) (G : Type 0) → Stable (λ s. Stays s.calls x → G) CreatesNothing
  stays-Stable x G = record {
    call = λ s c q k stays. k (server.fewer s.calls c x q stays);
    fields = λ s a b k. k;
  }

  -- The patch of what was fetched, as the last step of `removeFinalizer`.
  patched-IsDone :
      (x : Unstructured) (s : State) (r : Result String)
      → p.patch s.calls x.gvk x.meta.name x.meta.namespace ≡ r
      → Terminating s.calls x
      → let t = record s { calls = Call.patch x.gvk x.meta.name x.meta.namespace ∷ s.calls } in
        let out = continue r (λ _. pure {A = Unit {0}} tt) t in IsDone out.0 (¬ Stays out.1.calls x)
  unfolding pure
  patched-IsDone x s (ok reply) e h = server.patches s.calls x reply e h
  patched-IsDone x s (err f) e h = λ missing.
      (λ stays. server.not_patched s.calls x f e missing (server.fewer s.calls _ x tt stays))

  -- The fetch, with the patch of what it returns.
  fetched-IsDone :
      (x : Unstructured) (s : State) (r : Result Unstructured)
      → p.get_object s.calls x.gvk x.meta.name x.meta.namespace ≡ r
      → Terminating s.calls x
      → let t = record s { calls = Call.get_object x.gvk x.meta.name x.meta.namespace ∷ s.calls } in
        let out =
          continue r
            (λ u.
              ask
                (Call.patch x.gvk u.meta.name u.meta.namespace)
                (λ h. p.patch h x.gvk u.meta.name u.meta.namespace)
              >>= λ _. pure {A = Unit {0}} tt)
            t in
        IsDone out.0 (¬ Stays out.1.calls x)
  unfolding ◌>>=◌ ask
  fetched-IsDone x s (ok u) e h =
      let t = record s { calls = Call.get_object x.gvk x.meta.name x.meta.namespace ∷ s.calls } in
      let (n, m) = server.fetches s.calls x.gvk x.meta.name x.meta.namespace u e in
      rw (n, m)
        (patched-IsDone x t (p.patch t.calls x.gvk x.meta.name x.meta.namespace) refl
          (server.goes_on s.calls _ x tt h))
  fetched-IsDone x s (err f) e h = λ missing.
      (λ stays. server.not_fetched s.calls x f e missing (server.fewer s.calls _ x tt stays))

  unfinalized-IsDone :
      (x : Unstructured) (s : State) (f : Option (List String))
      → (f ≡ none → ¬ Stays s.calls x)
      → Terminating s.calls x
      → let out =
          on_option f
            (pure {A = Unit {0}} tt)
            (λ _.
              ask
                (Call.get_object x.gvk x.meta.name x.meta.namespace)
                (λ h. p.get_object h x.gvk x.meta.name x.meta.namespace)
              >>= λ u.
                  ask
                    (Call.patch x.gvk u.meta.name u.meta.namespace)
                    (λ h. p.patch h x.gvk u.meta.name u.meta.namespace)
                  >>= λ _. pure tt)
            s in
        IsDone out.0 (¬ Stays out.1.calls x)
  unfolding on_option pure ◌>>=◌ ask
  unfinalized-IsDone x s none bare h = bare refl
  unfinalized-IsDone x s (some fs) bare h =
      fetched-IsDone x s (p.get_object s.calls x.gvk x.meta.name x.meta.namespace) refl h

  deleted-IsDone :
      (x : Unstructured) (s : State) (r : Result String)
      → p.delete s.calls (Object.unstructured x) ≡ r
      → let t = record s { calls = Call.delete (Object.unstructured x) ∷ s.calls } in
        let out = continue r (λ _. remove_finalizer p (Object.unstructured x)) t in
        IsDone out.0 (¬ Stays out.1.calls x)
  unfolding remove_finalizer
  deleted-IsDone x s (ok reply) e =
      let t = record s { calls = Call.delete (Object.unstructured x) ∷ s.calls } in
      rw (finalizer_gvk_lem x) (
        unfinalized-IsDone x t x.meta.finalizers (server.deletes s.calls x reply e)
          (server.terminates s.calls x reply e))
  deleted-IsDone x s (err f) e = λ missing.
      (λ stays. server.not_deleted s.calls x f e missing (server.fewer s.calls _ x tt stays))

  pub delete-IsDone :
      (x : Unstructured) (s : State)
      → let out = delete_k8s_resource p (Object.unstructured x) s in
        IsDone out.0 (¬ Stays out.1.calls x)
  unfolding delete_k8s_resource ◌>>=◌ ask
  delete-IsDone x s = deleted-IsDone x s (p.delete s.calls (Object.unstructured x)) refl
