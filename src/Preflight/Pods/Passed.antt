-- ===== src/Preflight/Pods/Passed.antt =====
-- What the DNS check and the capability check went through where they return no error:
-- `validateDNSResolution` and `validateRequiredPodCapabilities` of tools/preflight/preflight.go.
use Prim.Native.String.{◌++◌}
use tvk_plugins.Prelude.{ℕ, zero, suc, String, List, [], ◌∷◌, ◌≡◌, subst}
use tvk_plugins.Kube.Objects.{Pod, Object}
use tvk_plugins.Action.Triple.{
  Triple-bind, Triple-given, Triple-raise, Triple-return, Triple-to, Triple-try,
}
use tvk_plugins.Preflight.Exec.{pure, try, ◌>>=◌}
use tvk_plugins.Preflight.Exec.Keeps.{Keeps-bind, Keeps-try, Keeps-pure}
use tvk_plugins.Preflight.Options.{Run, exec_dns_resolution_cmd}
use tvk_plugins.Preflight.Platform.{Platform}
use tvk_plugins.Preflight.Platform.Polls.{Polls}
use tvk_plugins.Preflight.Resources.{delete_k8s_resource}
use tvk_plugins.Preflight.Resources.Keeps.{delete_k8s_resource-Keeps}
use tvk_plugins.Preflight.Specs.{Capability, create_dns_pod_spec, create_pod_spec_with_capability}
use tvk_plugins.Preflight.Pods.{
  create_dns_pod_on_cluster, validate_dns_resolution, indexed_suffix, validation_cases,
  validate_pod_capability, validate_cases, validate_required_pod_capabilities,
}
use tvk_plugins.Preflight.Pods.Milestones.{
  Milestone, pod_created, pod_ready, command_run, At, At-Stable, NamesAsked, Reached,
  create_pod-Reached, wait_until_ready-Reached,
}
use tvk_plugins.Preflight.Pods.Steps.{get_pod-Reached}
use tvk_plugins.Preflight.Pods.Restoring.{kept-Reached, executed-Reached}

abbrev dns_pod : String → String
dns_pod suffix = "dnsutils-" ++ suffix

abbrev capability_pod : ℕ → String → String
capability_pod index suffix = "pod-capability-" ++ indexed_suffix index suffix

-- The newest first, behind those that were reached before.
module _ (o : Run) where
  -- The DNS pod was made and ready, and resolved the name of the API server.
  abbrev pub dns_resolved : String → List Milestone → List Milestone
  dns_resolved suffix before =
      command_run (dns_pod suffix) exec_dns_resolution_cmd
      ∷ pod_ready (dns_pod suffix)
      ∷ pod_created (create_dns_pod_spec o suffix)
      ∷ before

  -- A pod with each of these capabilities was made and ready.
  abbrev pub capable : ℕ → String → List Capability → List Milestone → List Milestone
  capable index suffix [] before = before
  capable index suffix (c ∷ cs) before = capable (suc index) suffix cs (
      pod_ready (capability_pod index suffix)
      ∷ pod_created (create_pod_spec_with_capability o (indexed_suffix index suffix) c)
      ∷ before)

module _ (p : Platform) (polls : Polls p) (names : NamesAsked p) (o : Run) where
  -- Deleting a pod, whether it succeeds or not.
  tried-Reached :
      (ms : List Milestone) (pod : Pod)
      → Reached
          (At p o.namespace ms)
          (do deleted ← try (delete_k8s_resource p (Object.pod pod)); pure tt)
          (λ u s. At p o.namespace ms s)
  tried-Reached ms pod = kept-Reached p polls names o ms _ (
      Keeps-bind _ _
        (Keeps-try _ (
          delete_k8s_resource-Keeps (At-Stable p o.namespace ms) p _ tt (λ g n ns. tt)
            (λ g n ns. tt)))
        (λ r. Keeps-pure _))

  create_dns_pod-Reached :
      (ms : List Milestone) (suffix : String)
      → Reached (At p o.namespace ms) (create_dns_pod_on_cluster p o suffix) (λ pod s.
        At p o.namespace
          (pod_ready (dns_pod suffix) ∷ pod_created (create_dns_pod_spec o suffix) ∷ ms)
          s
        × (pod.meta.name ≡ dns_pod suffix))
  unfolding create_dns_pod_on_cluster create_dns_pod_spec
  create_dns_pod-Reached ms suffix =
      let spec = create_dns_pod_spec o suffix in
      (Triple-bind _ _ (create_pod-Reached p o names ms spec) (λ r. Triple-given _ (λ same.
        Triple-bind _ _
          (wait_until_ready-Reached p o polls (pod_created spec) ms (dns_pod suffix) (λ h no. no))
          (λ u.
            get_pod-Reached p polls names o (pod_ready (dns_pod suffix) ∷ pod_created spec ∷ ms)
              (dns_pod suffix)))))

  pub dns-Reached :
      (ms : List Milestone) (suffix : String)
      → Reached
          (At p o.namespace ms)
          (validate_dns_resolution p o exec_dns_resolution_cmd suffix)
          (λ u s. At p o.namespace (dns_resolved o suffix ms) s)
  unfolding validate_dns_resolution
  dns-Reached ms suffix =
      let ready = pod_ready (dns_pod suffix) ∷ pod_created (create_dns_pod_spec o suffix) ∷ ms in
      Triple-bind _ _ (create_dns_pod-Reached ms suffix) (λ pod. Triple-given _ (λ same.
        Triple-try _ _ _
          (Triple-to _
            (executed-Reached p polls names o ready pod.meta.name _ exec_dns_resolution_cmd)
            (λ u t h.
              subst (λ n. At p o.namespace (command_run n exec_dns_resolution_cmd ∷ ready) t) same
                h)
            (λ t h. h))
          (λ e. Triple-raise _) (λ u. tried-Reached (dns_resolved o suffix ms) pod)))

  capability-Reached :
      (ms : List Milestone) (i : ℕ) (suffix : String) (c : Capability)
      → let spec = create_pod_spec_with_capability o (indexed_suffix i suffix) c in
        Reached
          (At p o.namespace ms)
          (validate_pod_capability p o (indexed_suffix i suffix) c)
          (λ u s. At p o.namespace (pod_ready (capability_pod i suffix) ∷ pod_created spec ∷ ms) s)
  unfolding validate_pod_capability create_pod_spec_with_capability
  capability-Reached ms i suffix c =
      let spec = create_pod_spec_with_capability o (indexed_suffix i suffix) c in
      let ready = pod_ready (capability_pod i suffix) ∷ pod_created spec ∷ ms in
      (Triple-bind _ _ (create_pod-Reached p o names ms spec) (λ r. Triple-given _ (λ same.
        Triple-bind _ _
          (wait_until_ready-Reached p o polls (pod_created spec) ms (capability_pod i suffix)
            (λ h no. no))
          (λ u.
            Triple-bind _ _ (get_pod-Reached p polls names o ready (capability_pod i suffix))
              (λ pod. Triple-given _ (λ same_pod. tried-Reached ready pod))))))

  cases-Reached :
      (ms : List Milestone) (i : ℕ) (suffix : String) (cs : List Capability)
      → Reached
          (At p o.namespace ms)
          (validate_cases p o i suffix cs)
          (λ u s. At p o.namespace (capable o i suffix cs ms) s)
  unfolding validate_cases
  cases-Reached ms i suffix [] = Triple-return tt (λ s h. h)
  cases-Reached ms i suffix (c ∷ cs) = Triple-bind _ _ (capability-Reached ms i suffix c) (λ u.
      cases-Reached
        (pod_ready (capability_pod i suffix)
          ∷ pod_created (create_pod_spec_with_capability o (indexed_suffix i suffix) c)
          ∷ ms)
        (suc i) suffix cs)

  pub capabilities-Reached :
      (ms : List Milestone) (suffix : String)
      → Reached
          (At p o.namespace ms)
          (validate_required_pod_capabilities p o suffix)
          (λ u s. At p o.namespace (capable o zero suffix validation_cases ms) s)
  unfolding validate_required_pod_capabilities
  capabilities-Reached ms suffix = cases-Reached ms zero suffix validation_cases
