-- ===== src/Cmd/Created.antt =====
-- The pods that the checks create with options that the command accepts: cmd/preflight/cmd/helper.go
-- with the specifications of tools/preflight/helper.go.
use Prim.Native.String.{◌++◌}
use tvk_plugins.Prelude.{String, false, [], ◌∷◌, ◌==◌, ◌≡◌, ◌≢◌, refl, inl, inr, ◌⊎◌, eq_iff}
use tvk_plugins.Prelude.Tests.{if◌then◌else◌, Bool-cases}
use tvk_plugins.Prelude.Lists.{All, Any}
use tvk_plugins.Kube.Objects.{Pod, Container, ResourceRequirements}
use tvk_plugins.Preflight.Options.{Run, gcr_registry_path, dns_utils_image}
use tvk_plugins.Preflight.Specs.{
  Capability, create_dns_pod_spec, create_volume_snapshot_pod_spec, create_restore_pod_spec,
  create_pod_spec_with_capability, get_pod_template, busybox_image,
}
use tvk_plugins.Cmd.Flags.{Libraries, done}
use tvk_plugins.Cmd.Values.{quantity_of}
use tvk_plugins.Cmd.Accepted.{IsAccepted, validate-done_iff}
use tvk_plugins.Cmd.Inputs.{validate_run_options}

module _ (lib : Libraries) where
  -- No amount that is requested is above its limit.
  abbrev pub IsWithin : ResourceRequirements → Type 0
  IsWithin r =
      (lib.value_above (quantity_of lib "memory" r.requests) (quantity_of lib "memory" r.limits)
        ≡ false)
      × (lib.float_above (quantity_of lib "cpu" r.requests) (quantity_of lib "cpu" r.limits)
          ≡ false)

  -- The image comes from the registry of the options, where one is given.
  abbrev pub IsFrom : Run → String → Type 0
  IsFrom o image =
      (o.local_registry ≡ "") ⊎ ((name : String) × (image ≡ o.local_registry ++ "/" ++ name))

  -- A pod is well-formed: it has one container, with requests within its limits, and that mounts
  -- nothing but volumes of the pod; and where secrets are given to pull its image, a registry is.
  pub record IsWellFormed (o : Run) (pod : Pod) : Type 0 where
    pub one : (c : Container) × (pod.spec.containers ≡ c ∷ [])
    pub within : All (λ c. IsWithin c.resources) pod.spec.containers
    pub mounts :
        All
          (λ c. All (λ m. Any (λ v. v.name ≡ m.name) pod.spec.volumes) c.volume_mounts)
          pod.spec.containers
    pub registry : All (λ c. IsFrom o c.image) pod.spec.containers
    pub secrets : (pod.spec.image_pull_secrets ≡ []) ⊎ (o.local_registry ≢ "")

  module _ (o : Run) (validated : validate_run_options lib o ≡ done tt) where
    accepted : IsAccepted lib o
    accepted = (validate-done_iff lib o).0 validated

    registry-IsFrom :
        (default name : String)
        → IsFrom o ((if o.local_registry == "" then default else o.local_registry) ++ "/" ++ name)
    registry-IsFrom default name = elim (Bool-cases (o.local_registry == "")) [
      | inl e ↦ inl ((eq_iff o.local_registry "").0 e)
      | inr e ↦ inr (name, rw e refl)
    ]

    busybox_image-IsFrom : IsFrom o (busybox_image o)
    unfolding busybox_image
    busybox_image-IsFrom = elim (Bool-cases (o.local_registry == "")) [
      | inl e ↦ inl ((eq_iff o.local_registry "").0 e)
      | inr e ↦ inr ("busybox", rw e refl)
    ]

    pull_secrets :
        ((if o.image_pull_secret == "" then [] else o.image_pull_secret ∷ []) ≡ [])
        ⊎ (o.local_registry ≢ "")
    pull_secrets = elim (accepted.1) [ inl e ↦ inl (rw e refl) | inr h ↦ inr h ]

    requirements-IsWithin : IsWithin o.resource_requirements
    requirements-IsWithin = (accepted.2, accepted.3)

    -- Every pod of the DNS check, the volume snapshot check and the capability check, whatever its
    -- name, its claim and its capability are, is well-formed where the validation accepts the options.
    pub specs-IsWellFormed :
        (suffix name claim : String) (c : Capability)
        → IsWellFormed o (create_dns_pod_spec o suffix)
          × IsWellFormed o (create_volume_snapshot_pod_spec claim o suffix)
          × IsWellFormed o (create_restore_pod_spec name claim suffix o)
          × IsWellFormed o (create_pod_spec_with_capability o name c)
    unfolding create_dns_pod_spec create_volume_snapshot_pod_spec create_restore_pod_spec
        create_pod_spec_with_capability get_pod_template
    specs-IsWellFormed suffix name claim c = (
      record {
        one = (_, refl);
        within = (requirements-IsWithin, tt);
        mounts = (tt, tt);
        registry = (registry-IsFrom gcr_registry_path dns_utils_image, tt);
        secrets = pull_secrets;
      },
      record {
        one = (_, refl);
        within = (requirements-IsWithin, tt);
        mounts = ((inl refl, tt), tt);
        registry = (busybox_image-IsFrom, tt);
        secrets = pull_secrets;
      },
      record {
        one = (_, refl);
        within = (requirements-IsWithin, tt);
        mounts = ((inl refl, tt), tt);
        registry = (busybox_image-IsFrom, tt);
        secrets = pull_secrets;
      },
      record {
        one = (_, refl);
        within = (requirements-IsWithin, tt);
        mounts = (tt, tt);
        registry = (busybox_image-IsFrom, tt);
        secrets = pull_secrets;
      },
    )
