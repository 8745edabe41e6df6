-- ===== src/Preflight/Cleanup/Kinds.antt =====
-- A cleanup goes through every kind, whatever fails on the way.
use mathlib.Core.List.{reverse, reverse-append, append_assoc, append-nil}
use tvk_plugins.Prelude.{
  String, List, [], ◌∷◌, ◌++◌, ◌≡◌, refl, sym, ap, ◌∙◌, none, Bool, true, false, ◌&&◌,
}
use tvk_plugins.Prelude.Tests.{if◌then◌else◌}
use tvk_plugins.Kube.Objects.{Labels, GroupVersionKind, Unstructured}
use tvk_plugins.Kube.Calls.{
  Call, list_objects, server_groups, deletion_failed, is_not_found, Result, ok, err,
}
use tvk_plugins.Preflight.Exec.{
  State, Exec, pure, raise, ask, try, continue, on_result, on_option, ◌>>=◌,
}
use tvk_plugins.Preflight.Exec.Keeps.{Keeps, Stable}
use tvk_plugins.Preflight.Options.{storage_snapshot_group}
use tvk_plugins.Preflight.Platform.{Platform}
use tvk_plugins.Preflight.Resources.{versions_of_group, get_versions_of_group}
use tvk_plugins.Preflight.Cleanup.{
  Cleanup, res_labels, delete_ns, get_cleanup_resource_gvk_list, cleanup_kinds, clean_objects,
  clean_kinds, cleanup_preflight_resources,
}
use tvk_plugins.Preflight.Resources.Keeps.{delete_k8s_resource-Keeps}

-- The kinds that were listed, the newest first.
abbrev pub listed : List Call → List GroupVersionKind
listed [] = []
listed (list_objects g _ _ ∷ cs) = g ∷ listed cs
listed (_ ∷ cs) = listed cs

abbrev NotListing : Call → Type 0
NotListing (list_objects _ _ _) = ⊥
NotListing _ = Unit

listed-skip : (c : Call) (cs : List Call) → NotListing c → listed (c ∷ cs) ≡ listed cs
listed-skip (list_objects g l n) cs q = absurd q
listed-skip _ cs q = refl

Listed-Stable : (l : List GroupVersionKind) → Stable (λ s. listed s.calls ≡ l) NotListing
Listed-Stable l = record { call = λ s c q h. listed-skip c s.calls q ∙ h; fields = λ s a b h. h }

-- `m` returns no error, and lists these kinds.
record Visits {A : Type 0} (gs : List GroupVersionKind) (m : Exec A) : Type 0 where
  at : (s : State) → (a : A) × ((m s).0 ≡ ok a) × (listed (m s).1.calls ≡ gs ++ listed s.calls)

module _ {A B : Type 0} (gs hs : List GroupVersionKind) where
  Visits-continue :
      (k : A → Exec B) (l : List GroupVersionKind) (r : Result A) (a : A) (t : State)
      → r ≡ ok a
      → listed t.calls ≡ gs ++ l
      → Visits hs (k a)
      → (b : B) × ((continue r k t).0 ≡ ok b) × (listed (continue r k t).1.calls ≡ (hs ++ gs) ++ l)
  Visits-continue k l (ok x) a t e q h =
      let f : x ≡ a = cc in
      let (b, eb, qb) = h.at t in
      rw f (b, eb, qb ∙ ap (λ z. hs ++ z) q ∙ sym (append_assoc hs gs l))
  Visits-continue k l (err x) a t e q h = cc

module _ {A B : Type 0} {gs hs : List GroupVersionKind} where
  Visits-bind :
      (m : Exec A) (k : A → Exec B)
      → Visits gs m
      → ((a : A) → Visits hs (k a))
      → Visits (hs ++ gs) (m >>= k)
  unfolding ◌>>=◌
  Visits-bind m k km kk = record {
    at = λ s.
        (let (a, e, q) = km.at s in
          Visits-continue gs hs k (listed s.calls) (m s).0 a (m s).1 e q (kk a));
  }

Visits-pure : {A : Type 0} (a : A) → Visits [] (pure a)
unfolding pure
Visits-pure a = record { at = λ s. (a, refl, refl) }

-- What never lists visits nothing, once its error is caught.
Visits-try :
    {A : Type 0} (m : Exec A)
    → ((l : List GroupVersionKind) → Keeps (λ s. listed s.calls ≡ l) m)
    → Visits [] (try m)
unfolding ◌>>=◌
Visits-try m k = record { at = λ s. ((m s).0, refl, (k (listed s.calls)).at s refl) }

combined-Visits :
    (r : Result (Unit {0})) (b : Bool)
    → Visits [] (on_result r (λ e. pure (is_not_found e && b)) (λ _. pure b))
unfolding on_result
combined-Visits (ok _) b = Visits-pure b
combined-Visits (err e) b = Visits-pure (is_not_found e && b)

module _ (p : Platform) where
  clean_objects-Visits : (l : List Unstructured) → Visits [] (clean_objects p l)
  unfolding clean_objects
  clean_objects-Visits [] = Visits-pure true
  clean_objects-Visits (x ∷ l) =
      Visits-bind _ _
        (Visits-try _
          (λ k. delete_k8s_resource-Keeps (Listed-Stable k) p _ tt (λ g n ns. tt) (λ g n ns. tt)))
        (λ r. Visits-bind _ _ (clean_objects-Visits l) (combined-Visits r))

  cleaned-Visits :
      (r : Result (List Unstructured)) → Visits [] (on_result r (λ e. pure false) (clean_objects p))
  unfolding on_result
  cleaned-Visits (ok l) = clean_objects-Visits l
  cleaned-Visits (err e) = Visits-pure false

  list-Visits :
      (g : GroupVersionKind) (labels : Labels) (ns : String)
      → Visits (g ∷ []) (try (ask (list_objects g labels ns) (λ h. p.list_objects h g labels ns)))
  unfolding ◌>>=◌ ask
  list-Visits g labels ns = record { at = λ s. (p.list_objects s.calls g labels ns, refl, refl) }

  clean_kinds-Visits :
      (labels : Labels) (ns : String) (gs : List GroupVersionKind)
      → Visits (reverse gs) (clean_kinds p labels ns gs)
  unfolding clean_kinds
  clean_kinds-Visits labels ns [] = Visits-pure true
  clean_kinds-Visits labels ns (g ∷ gs) =
      let later = λ (b : Bool).
        Visits-bind _ (λ others. pure (b && others)) (clean_kinds-Visits labels ns gs)
          (λ others. Visits-pure (b && others)) in
      rw (reverse-append (g ∷ []) gs) (
        Visits-bind _ _ (list-Visits g labels ns)
          (λ r. rw (← append-nil (reverse gs)) (Visits-bind _ _ (cleaned-Visits r) later)))

  -- The last step changes no call.
  result-listed :
      (r : Result Bool) (t : State)
      → listed
          (continue r (λ b. if b then pure {A = Unit {0}} tt else raise deletion_failed) t).1.calls
        ≡ listed t.calls
  unfolding pure raise
  result-listed (ok true) t = refl
  result-listed (ok false) t = refl
  result-listed (err e) t = refl

  pub gvk_list_lem :
      (s : State)
      → (p.server_groups s.calls).1 ≡ none
      → get_cleanup_resource_gvk_list p s ≡ (
        ok (cleanup_kinds (versions_of_group storage_snapshot_group (p.server_groups s.calls).0)),
        record s { calls = server_groups ∷ s.calls },
      )
  unfolding get_cleanup_resource_gvk_list get_versions_of_group on_option ◌>>=◌ ask
  gvk_list_lem s h = rw (h, on_option)

  -- If the API groups can be read, a cleanup lists, once each and in order, the volume snapshots of
  -- every served version of their group, then the claims and the pods, whichever of the listings
  -- and deletions on the way fail.
  pub cleanup-lists_all :
      (co : Cleanup) (s : State)
      → (p.server_groups s.calls).1 ≡ none
      → listed (cleanup_preflight_resources p co s).1.calls
        ≡ reverse
            (cleanup_kinds (versions_of_group storage_snapshot_group (p.server_groups s.calls).0))
          ++ listed s.calls
  unfolding cleanup_preflight_resources ◌>>=◌
  cleanup-lists_all co s h =
      let kinds =
        cleanup_kinds (versions_of_group storage_snapshot_group (p.server_groups s.calls).0) in
      let t = record s { calls = server_groups ∷ s.calls } in
      let (b, e, q) = (clean_kinds-Visits (res_labels co) (delete_ns co) kinds).at t in
      rw (gvk_list_lem s h) (
        result-listed (clean_kinds p (res_labels co) (delete_ns co) kinds t).0
          (clean_kinds p (res_labels co) (delete_ns co) kinds t).1
        ∙ q)
