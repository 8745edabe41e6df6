-- ===== src/Preflight/Cleanup/Emptied.antt =====
-- What a cleanup without an error leaves of the objects that it is for, against an API server that
-- keeps to its documentation (tools/preflight/cleanup.go).
use tvk_plugins.Prelude.{
  String, Bool, true, false, ◌&&◌, Option, none, some, List, [], ◌∷◌, ◌≡◌, refl, inl, inr, sym,
  subst, ap, ◌∙◌,
}
use tvk_plugins.Action.Inversion.{bind-ok, bind-eq}
use tvk_plugins.Kube.Cluster.{ApiGroup}
use tvk_plugins.Prelude.Tests.{if◌then◌else◌, and_true}
use tvk_plugins.Prelude.Lists.{Any, All-trivial}
use tvk_plugins.Kube.Objects.{Labels, GroupVersionKind, Unstructured, Object}
use tvk_plugins.Kube.Calls.{Call, Error, Result, ok, err, is_not_found, deletion_failed}
use tvk_plugins.Preflight.Exec.{State, Exec, pure, raise, ask, try, on_option, on_result}
use tvk_plugins.Preflight.Exec.Keeps.{Keeps}
use tvk_plugins.Preflight.Options.{storage_snapshot_group}
use tvk_plugins.Preflight.Platform.{Platform}
use tvk_plugins.Preflight.Resources.{delete_k8s_resource, versions_of_group, get_versions_of_group}
use tvk_plugins.Preflight.Cleanup.{
  Cleanup, res_labels, delete_ns, get_cleanup_resource_gvk_list, cleanup_kinds, clean_objects,
  clean_kinds, cleanup_preflight_resources,
}
use tvk_plugins.Preflight.Cleanup.Keeps.{clean_objects-Keeps, clean_kinds-Keeps}
use tvk_plugins.Preflight.Cleanup.Server.{
  IsSelected, ApiServer, IsDone, stays-Stable, delete-IsDone,
}

module _ (p : Platform) (Stays Terminating : List Call → Unstructured → Type 0)
    (server : ApiServer p Stays Terminating) where
  -- `m` returns no error; and if it returns true, none of these objects stays.
  record Empties (gone : Unstructured → Type 0) (m : Exec Bool) : Type 0 where
    at :
        (s : State)
        → (b : Bool) × ((m s).0 ≡ ok b)
          × (b ≡ true → (x : Unstructured) → gone x → ¬ Stays (m s).1.calls x)

  clean_objects-stays :
      (x : Unstructured) (G : Type 0) (l : List Unstructured)
      → Keeps (λ s. Stays s.calls x → G) (clean_objects p l)
  clean_objects-stays x G l =
      clean_objects-Keeps (stays-Stable p Stays Terminating server x G) p {Good = λ u. Unit {0}}
        (λ u g. tt) (λ g n ns. tt) (λ g n ns. tt) l (All-trivial l)

  clean_kinds-stays :
      (x : Unstructured) (G : Type 0) (labels : Labels) (ns : String) (gs : List GroupVersionKind)
      → Keeps (λ s. Stays s.calls x → G) (clean_kinds p labels ns gs)
  clean_kinds-stays x G labels ns =
      clean_kinds-Keeps (stays-Stable p Stays Terminating server x G) p {Good = λ u. Unit {0}}
        (λ u g. tt) (λ g n ns. tt) (λ g n ns. tt) labels ns (λ h g objs e. All-trivial objs)
        (λ g. tt)

  -- What the loop makes of one deletion and of the deletions behind it.
  combined :
      {Gone : Type 0} (r : Result (Unit {0})) (b : Bool) (u : State)
      → IsDone r Gone
      → let out = on_result r (λ e. pure (is_not_found e && b)) (λ _. pure b) u in
        (c : Bool) × (out ≡ (ok c, u)) × (c ≡ true → (b ≡ true) × Gone)
  unfolding on_result pure
  combined (ok _) b u done = (b, refl, (λ h. (h, done)))
  combined (err e) b u done =
      (is_not_found e && b, refl, (λ h. let (x, y) = and_true (is_not_found e) b h in (y, done x)))

  clean_objects-Empties :
      (l : List Unstructured) → Empties (λ x. Any (λ y. x ≡ y) l) (clean_objects p l)
  unfolding clean_objects try pure
  clean_objects-Empties [] = record { at = λ s. (true, refl, (λ h x no. absurd no)) }
  clean_objects-Empties (x ∷ l) = record {
    at = λ s.
        (let (r, t) = delete_k8s_resource p (Object.unstructured x) s in
          let (b, e, later) = (clean_objects-Empties l).at t in
          let u = (clean_objects p l t).1 in
          let (c, f, both) = combined r b u (delete-IsDone p Stays Terminating server x s) in
          let out : clean_objects p (x ∷ l) s ≡ (ok c, u) =
            bind-eq _ _ s refl ∙ (bind-eq _ _ t e ∙ f) in
          (
            c,
            ap (λ z. z.0) out,
            (λ h y among.
                subst (λ z. ¬ Stays z.1.calls y) (sym out)
                  (elim among [
                    | inl same ↦
                        subst (λ v. ¬ Stays u.calls v) (sym same)
                          ((clean_objects-stays x ⊥ l).at t (both h).1)
                    | inr behind ↦ later (both h).0 y behind
                  ])),
          ));
  }

  module _ (labels : Labels) (ns : String) where
    -- What is left of a kind, where its objects were listed and cleaned.
    listed-Empties :
        (g : GroupVersionKind) (h : List Call) (r : Result (List Unstructured))
        → p.list_objects h g labels ns ≡ r
        → Empties
            (λ x. Stays h x × IsSelected g labels ns x)
            (on_result r (λ e. pure false) (clean_objects p))
    unfolding on_result pure
    listed-Empties g h (ok objs) e = record {
      at = λ s.
          (let (b, f, gone) = (clean_objects-Empties objs).at s in
            (b, f, (λ t x (stays, sel). gone t x (server.lists h g labels ns objs x e stays sel))));
    }
    listed-Empties g h (err f) e = record { at = λ s. (false, refl, (λ t x sel. cc)) }

    clean_kinds-Empties :
        (gs : List GroupVersionKind)
        → Empties (λ x. Any (λ g. IsSelected g labels ns x) gs) (clean_kinds p labels ns gs)
    unfolding clean_kinds try ask pure
    clean_kinds-Empties [] = record { at = λ s. (true, refl, (λ h x no. absurd no)) }
    clean_kinds-Empties (g ∷ gs) = record {
      at = λ s.
          (let r = p.list_objects s.calls g labels ns in
            let t = record s { calls = Call.list_objects g labels ns ∷ s.calls } in
            let (b, e, first) = (listed-Empties g s.calls r refl).at t in
            let u = (on_result r (λ x. pure false) (clean_objects p) t).1 in
            let (c, f, others) = (clean_kinds-Empties gs).at u in
            let v = (clean_kinds p labels ns gs u).1 in
            let out : clean_kinds p labels ns (g ∷ gs) s ≡ (ok (b && c), v) =
              bind-eq _ _ s refl ∙ (bind-eq _ _ t e ∙ bind-eq _ _ u f) in
            (
              b && c,
              ap (λ z. z.0) out,
              (λ h x sel.
                  (let (hb, hc) = and_true b c h in
                    elim sel [
                      | inl of_g ↦ λ stays.
                          subst (λ z. ¬ Stays z.1.calls x) (sym out)
                            ((clean_kinds-stays x ⊥ labels ns gs).at u (
                              first hb x (
                                (clean_kinds-stays x (Stays s.calls x) labels ns (g ∷ gs)).at s
                                    (λ k. k) stays,
                                of_g,
                              )))
                            stays
                      | inr of_gs ↦ subst (λ z. ¬ Stays z.1.calls x) (sym out) (others hc x of_gs)
                    ])),
            ));
    }

  groups-ok :
      (o : Option Error) (groups : List ApiGroup) (t : State) {g : List ApiGroup}
      → (on_option o (pure groups) raise t).0 ≡ ok g
      → g ≡ groups
  unfolding on_option pure raise
  groups-ok none groups t h = cc
  groups-ok (some e) groups t h = cc

  gvk_list-ok :
      (s : State) (gvks : List GroupVersionKind)
      → (get_cleanup_resource_gvk_list p s).0 ≡ ok gvks
      → gvks ≡ cleanup_kinds (versions_of_group storage_snapshot_group (p.server_groups s.calls).0)
  unfolding get_cleanup_resource_gvk_list get_versions_of_group ask pure
  gvk_list-ok s gvks h =
      let (versions, e, f) = bind-ok _ _ s h in
      let (groups, e1, f1) = bind-ok _ _ s e in
      let (reply, e2, f2) = bind-ok _ _ s e1 in
      cc (groups-ok reply.1 reply.0 (record s { calls = Call.server_groups ∷ s.calls }) f2)

  last-ok :
      (b : Bool) (t : State)
      → let out = (if b then pure {A = Unit {0}} tt else raise deletion_failed) t in
        out.0 ≡ ok tt → (b ≡ true) × (out.1 ≡ t)
  unfolding pure raise
  last-ok true t h = (refl, refl)
  last-ok false t h = cc

  -- Where the API server keeps to its documentation, whatever requests it refuses: if a cleanup
  -- returns no error, no object stays on the cluster that is a volume snapshot of a served version, a
  -- claim or a pod in the namespace of the cleanup with its labels; that is, its deletion was granted
  -- and no finalizer holds it, or it is not there.
  pub cleanup-Empties :
      (co : Cleanup) (s : State) (x : Unstructured)
      → (cleanup_preflight_resources p co s).0 ≡ ok tt
      → Any
          (λ g. IsSelected g (res_labels co) (delete_ns co) x)
          (cleanup_kinds (versions_of_group storage_snapshot_group (p.server_groups s.calls).0))
      → ¬ Stays (cleanup_preflight_resources p co s).1.calls x
  unfolding cleanup_preflight_resources
  cleanup-Empties co s x h sel =
      let (gvks, e, f) = bind-ok _ _ s h in
      let t = (get_cleanup_resource_gvk_list p s).1 in
      let (b, e1, f1) = bind-ok _ _ t f in
      let (c, e2, gone) = (clean_kinds-Empties (res_labels co) (delete_ns co) gvks).at t in
      let u = (clean_kinds p (res_labels co) (delete_ns co) gvks t).1 in
      let (all, same) = last-ok b u f1 in
      let out = bind-eq (get_cleanup_resource_gvk_list p) _ s e ∙ bind-eq _ _ t e1 in
      subst (λ z. ¬ Stays z.1.calls x) (sym out)
        (subst (λ z. ¬ Stays z.calls x) (sym same)
          (gone (cc) x (
            subst (λ l. Any (λ g. IsSelected g (res_labels co) (delete_ns co) x) l)
              (sym (gvk_list-ok s gvks e)) sel)))
