-- ===== src/Scenarios/Cluster.antt =====
-- A concrete cluster for the runs: every request is granted, an object comes back as it was sent,
-- and the random source counts.
use tvk_plugins.Prelude.{
  ℕ, zero, suc, arith, ◌≡◌, refl, String, Bool, true, false, none, some, [], ◌∷◌,
}
use tvk_plugins.Prelude.Tests.{if◌then◌else◌}
use tvk_plugins.Prelude.Lists.{length}
use tvk_plugins.Kube.Objects.{
  Pod, Container, ObjectMeta, VolumeSnapshot, Unstructured, empty_pod_spec, no_gvk, found,
}
use tvk_plugins.Kube.Calls.{Result, ok, err, not_found, wait_timeout}
use tvk_plugins.Kube.Cluster.{Cluster, ApiGroup}
use tvk_plugins.Preflight.Exec.{State, Exec, pure, raise, lift, ask, continue, ◌>>=◌}
use tvk_plugins.Preflight.Exec.Keeps.{Keeps, Keeps-pure, Keeps-raise, Keeps-bind, Keeps-if}
use tvk_plugins.Preflight.Options.{Run}
use tvk_plugins.Preflight.Platform.{Platform}
use tvk_plugins.Preflight.Platform.Polls.{Polls}
use tvk_plugins.Preflight.Resources.{create_resource_name_suffix}

abbrev meta_of : String → String → ObjectMeta
meta_of name ns = record { name = name; namespace = ns; labels = []; finalizers = none }

abbrev busybox : Container
busybox = record {
  name = "busybox";
  image = "busybox";
  command = [];
  args = [];
  image_pull_policy = none;
  resources = record { requests = []; limits = [] };
  volume_mounts = [];
  readiness_probe = none;
  security_context = none;
}

abbrev pub stored_pod : String → String → Pod
stored_pod ns name = record {
  type_meta = no_gvk;
  meta = meta_of name ns;
  spec = record empty_pod_spec { containers = busybox ∷ [] };
  conditions = record { type = "Ready"; status = "True" } ∷ [];
}

abbrev ready_snapshot : String → String → VolumeSnapshot
ready_snapshot ns name = record {
  gvk = no_gvk;
  meta = meta_of name ns;
  volume_snapshot_class_name = "";
  persistent_volume_claim_name = "";
  ready_to_use = found true;
}

abbrev pub leftover : Unstructured
leftover = record {
  gvk = record { group = ""; version = "v1"; kind = "Pod" };
  meta = meta_of "dnsutils-abcdef" "default";
}

abbrev pub snapshot_api : ApiGroup
snapshot_api = record {
  name = "snapshot.storage.k8s.io";
  versions = "v1" ∷ "v1beta1" ∷ [];
  preferred_version = "v1";
}

abbrev cluster : Cluster
cluster = record {
  look_path = λ h b. ok b;
  run_cmd = λ h c. ok "version v3.8.1";
  random = λ h. ok (length h);
  server_resources = λ h gv. err (not_found gv);
  server_version = λ h. ok (record { git_version = "v1.24.0"; string = "v1.24.0" });
  server_groups = λ h. (snapshot_api ∷ [], none);
  get_namespace = λ h n. ok n;
  get_storage_class = λ h n. ok "driver";
  get_crd = λ h n. ok n;
  create_crd = λ h n. ok n;
  list_snapshot_classes = λ h v. ok [];
  get_snapshot_class = λ h v n. err (not_found n);
  create_snapshot_class = λ h c. ok c.name;
  create_pod = λ h ns pod. ok pod;
  get_pod = λ h ns name. ok (stored_pod ns name);
  create_claim = λ h ns c. ok c;
  create_snapshot = λ h v. ok v;
  get_snapshot = λ h v ns n. ok (ready_snapshot ns n);
  exec = λ h ns n c cmd. some (record { error = none });
  list_objects = λ h g l ns. ok (leftover ∷ []);
  delete = λ h o. ok "";
  get_object = λ h g n ns. ok leftover;
  patch = λ h g n ns. ok n;
  new_version = λ v. ok (record { original = v });
  new_semver = λ v. ok (some (record { original = v }));
  less_than = λ a b. false;
  extract_group_versions = λ gs. "rbac.authorization.k8s.io/v1" ∷ [];
  parse_group_version = λ gv. ok ("rbac.authorization.k8s.io", "v1");
  read_file = λ f. ok f;
  unmarshal_crd = λ t. ok t;
}

-- Poll until the steps are used up.
abbrev poll : ℕ → Exec Bool → Exec (Unit {0})
poll zero condition = raise wait_timeout
poll (suc n) condition = do reached ← condition; if reached then pure tt else poll n condition

abbrev pub platform : Platform
platform = record { cluster = cluster; exponential_backoff = λ b condition. poll b.steps condition }

poll-Keeps :
    (P : State → Type 0) (n : ℕ) (condition : Exec Bool)
    → Keeps P condition
    → Keeps P (poll n condition)
poll-Keeps P zero condition k = Keeps-raise wait_timeout
poll-Keeps P (suc n) condition k =
    Keeps-bind _ _ k (λ b. Keeps-if b _ _ (λ _. Keeps-pure tt) (λ _. poll-Keeps P n condition k))

-- One round, from what its condition returned.
round-done :
    (n : ℕ) (condition : Exec Bool) (s : State) (r : Result Bool) (t : State)
    → ((u : State)
        → (poll n condition u).0 ≡ ok tt
        → (v : State) × ((condition v).0 ≡ ok true) × ((condition v).1 ≡ (poll n condition u).1))
    → (condition s).0 ≡ r
    → (condition s).1 ≡ t
    → (continue r (λ b. if b then pure {A = Unit {0}} tt else poll n condition) t).0 ≡ ok tt
    → (v : State) × ((condition v).0 ≡ ok true)
      × ((condition v).1
          ≡ (continue r (λ b. if b then pure {A = Unit {0}} tt else poll n condition) t).1)
unfolding pure
round-done n condition s (ok true) t later e f h = (s, e, f)
round-done n condition s (ok false) t later e f h = later t h
round-done n condition s (err x) t later e f h = absurd (ground arith)

poll-done :
    (n : ℕ) (condition : Exec Bool) (s : State)
    → (poll n condition s).0 ≡ ok tt
    → (t : State) × ((condition t).0 ≡ ok true) × ((condition t).1 ≡ (poll n condition s).1)
unfolding ◌>>=◌ raise
poll-done zero condition s h = absurd (ground arith)
poll-done (suc n) condition s h =
    round-done n condition s (condition s).0 (condition s).1 (poll-done n condition) refl refl h

pub platform-Polls : Polls platform
platform-Polls = record {
  keeps = λ P b condition k. poll-Keeps P b.steps condition k;
  done = λ b condition s h. poll-done b.steps condition s h;
}

abbrev pub start : State
start = record {
  snapshot_class = "";
  storage_vol_snap_class = "";
  res_name_suffix = "";
  calls = [];
  verdicts = [];
}

abbrev pub options : Run
options = record {
  run_options = record {
    storage_class = "csi-gce-pd";
    snapshot_class = "";
    local_registry = "";
    image_pull_secret = "";
    service_account_name = "";
    perform_cleanup_on_fail = true;
    pvc_storage_request = record { text = "1Gi" };
    resource_requirements = record { requests = []; limits = [] };
    pod_sched_ops = record { node_selector = []; affinity = none; tolerations = [] };
  };
  common_options = record {
    kubeconfig = "";
    namespace = "default";
    log_level = "INFO";
    in_cluster = false;
  };
}

pub suffix_of_start : (create_resource_name_suffix platform start).0 ≡ ok "abcdef"
unfolding create_resource_name_suffix pure lift ask ◌>>=◌
suffix_of_start = refl
