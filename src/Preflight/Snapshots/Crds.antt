-- ===== src/Preflight/Snapshots/Crds.antt =====
-- What is on the cluster after `checkAndCreateVolumeSnapshotCRDs` returned no error.
use tvk_plugins.Prelude.{
  String, Bool, true, false, Option, none, some, List, [], ◌∷◌, ◌≡◌, refl, ◌∙◌, ap, ◌⊎◌, inl, inr,
  arith,
}
use tvk_plugins.Prelude.Tests.{if◌then◌else◌}
use tvk_plugins.Prelude.Lists.{All}
use tvk_plugins.Kube.Calls.{Call, Error, Result, ok, err, ok-path, is_not_found, getting_crd}
use tvk_plugins.Preflight.Exec.{State, Exec, pure, raise, lift, ask, try, ◌>>=◌, on_result}
use tvk_plugins.Action.Inversion.{bind-ok}
use tvk_plugins.Preflight.Options.{volume_snapshot_crds}
use tvk_plugins.Preflight.Platform.{Platform}
use tvk_plugins.Preflight.Snapshots.{
  crd_path, install_crd, ensure_crd, ensure_crds, raise_errors,
  check_and_create_volume_snapshot_crds,
}

collected :
    (e : Option Error) (es : List Error)
    → (elim e [ some x ↦ x ∷ es | none ↦ es ]) ≡ []
    → (e ≡ none) × (es ≡ [])
collected none es h = (refl, h)
collected (some x) es h = absurd (ground arith)

missing :
    {A : Type 0} {a : A} (m : Exec A) (e : Error) (t : State) (b : Bool)
    → ((if b then m else raise e) t).0 ≡ ok a
    → (m t).0 ≡ ok a
unfolding raise
missing m e t true h = h
missing m e t false h = absurd (ground arith)

module _ (p : Platform) (version : String) where
  -- The cluster granted the creation of what the manifest of that version says.
  abbrev pub IsCreated : String → Type 0
  IsCreated crd =
      (bytes : String) × (obj : String) × (name : String) × (h : List Call) × (p.read_file
          (crd_path version crd)
        ≡ ok bytes)
      × (p.unmarshal_crd bytes ≡ ok obj)
      × (p.create_crd h obj ≡ ok name)

  -- The cluster had the definition, or it was created.
  abbrev pub IsPresent : String → Type 0
  IsPresent crd = ((h : List Call) × (name : String) × (p.get_crd h crd ≡ ok name)) ⊎ IsCreated crd

  abbrev install : String → Exec String
  install crd = do
    file_bytes ← lift (p.read_file (crd_path version crd))
    crd_obj ← lift (p.unmarshal_crd file_bytes)
    ask (Call.create_crd crd_obj) (λ h. p.create_crd h crd_obj)

  install-IsCreated : (crd name : String) (s : State) → (install crd s).0 ≡ ok name → IsCreated crd
  unfolding lift ask
  install-IsCreated crd name s e =
      let (bytes, e1, f) = bind-ok (lift (p.read_file (crd_path version crd))) _ s e in
      let (obj, e2, g) = bind-ok (lift (p.unmarshal_crd bytes)) _ _ f in
      (bytes, obj, name, _, e1, e2, g)

  installed :
      (crd : String) (s t : State) (r : Result String)
      → (install crd s).0 ≡ r
      → (k : String → Exec (Option Error)) → (on_result r (λ e. pure (some e)) k t).0 ≡ ok none
      → IsCreated crd
  unfolding on_result pure
  installed crd s t (ok name) e k h = install-IsCreated crd name s e
  installed crd s t (err x) e k h = absurd (ground arith)

  install_crd-IsCreated :
      (crd : String) (s : State) → (install_crd p version crd s).0 ≡ ok none → IsCreated crd
  unfolding install_crd try
  install_crd-IsCreated crd s h =
      let (r, e, f) = bind-ok (try (install crd)) _ s h in installed crd s _ r (ok-path e) _ f

  looked_up :
      (crd : String) (s t : State) (r : Result String)
      → p.get_crd s.calls crd ≡ r
      → (on_result r
          (λ e. if is_not_found e then install_crd p version crd else raise (getting_crd e))
          (λ _. pure none)
          t).0
        ≡ ok none
      → IsPresent crd
  unfolding on_result raise
  looked_up crd s t (ok name) e h = inl (s.calls, name, e)
  looked_up crd s t (err x) e h =
      inr (install_crd-IsCreated crd t (missing _ _ t (is_not_found x) h))

  ensure_crd-IsPresent :
      (crd : String) (s : State) → (ensure_crd p version crd s).0 ≡ ok none → IsPresent crd
  unfolding ensure_crd try ask
  ensure_crd-IsPresent crd s h =
      let (r, e, f) = bind-ok (try (ask (Call.get_crd crd) (λ c. p.get_crd c crd))) _ s h in
      looked_up crd s _ r (ok-path e) f

  ensure_crds-IsPresent :
      (crds : List String) (s : State)
      → (ensure_crds p version crds s).0 ≡ ok []
      → All IsPresent crds
  unfolding ensure_crds pure
  ensure_crds-IsPresent [] s h = tt
  ensure_crds-IsPresent (crd ∷ crds) s h =
      let (e, e1, f) = bind-ok _ _ s h in
      let (es, e2, g) = bind-ok _ _ _ f in
      let (no_error, no_errors) = collected e es (ok-path g) in
      (
        ensure_crd-IsPresent crd s (e1 ∙ ap (λ x. ok x) no_error),
        ensure_crds-IsPresent crds _ (e2 ∙ ap (λ x. ok x) no_errors),
      )

module _ (p : Platform) where
  raised : (errs : List Error) (s : State) → (raise_errors errs s).0 ≡ ok tt → errs ≡ []
  unfolding raise_errors raise
  raised [] s h = refl
  raised (e ∷ es) s h = absurd (ground arith)

  -- If the installation of the volume snapshot CRDs returns no error, there is a version of the
  -- manifests such that each of the three CRDs was found on the cluster, or its manifest of that
  -- version could be read and decoded and the cluster granted its creation.
  pub crds-IsPresent :
      (server_version : String) (s : State)
      → (check_and_create_volume_snapshot_crds p server_version s).0 ≡ ok tt
      → (version : String) × All (IsPresent p version) volume_snapshot_crds
  unfolding check_and_create_volume_snapshot_crds
  crds-IsPresent server_version s h =
      let (version, e, f) = bind-ok _ _ s h in
      let (errs, e1, g) = bind-ok _ _ _ f in
      (
        version,
        ensure_crds-IsPresent p version volume_snapshot_crds _
            (e1 ∙ ap (λ x. ok x) (raised errs _ g)),
      )
