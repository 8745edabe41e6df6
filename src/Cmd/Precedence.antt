-- ===== src/Cmd/Precedence.antt =====
-- Which of flag, input file and default decides an option.
use tvk_plugins.Prelude.{
  String, ◌≡◌, refl, ◌≢◌, Bool, true, false, ◌||◌, none, some, ◌==◌, eq_iff, arith,
}
use tvk_plugins.Prelude.Tests.{if◌then◌else◌}
use tvk_plugins.Prelude.Lists.{lookup, lookup-insert}
use tvk_plugins.Kube.Objects.{ResourceList, ResourceRequirements}
use tvk_plugins.Preflight.Options.{CommonOptions}
use tvk_plugins.Cmd.Flags.{
  Flags, PreflightCmdOps, Libraries, done, in_cluster_flag, kubeconfig_flag, namespace_flag,
  log_level_flag,
}
use tvk_plugins.Cmd.Inversion.{bind-done, if-done, done-path, if-true-done}
use tvk_plugins.Cmd.Values.{
  take_resource, quantity_of, update_resources, update_res_req_from_cli, set_res_req_default_values,
}
use tvk_plugins.Cmd.Inputs.{
  update_common_inputs_from_cli, manage_preflight_inputs, override_preflight_file_inputs_from_cli,
  with_resource_requirements,
}

pick_again :
    (changed : Bool) (given kept : String)
    → (if changed || (if changed || kept == "" then given else kept) == ""
        then given
        else (if changed || kept == "" then given else kept))
      ≡ (if changed || kept == "" then given else kept)
pick_again true given kept = refl
pick_again false given kept = ground arith

pick_bool_again :
    (changed given kept : Bool)
    → (if changed || (if changed || kept then given else kept)
        then given
        else (if changed || kept then given else kept))
      ≡ (if changed || kept then given else kept)
pick_bool_again true given kept = refl
pick_bool_again false true true = refl
pick_bool_again false false true = refl
pick_bool_again false true false = refl
pick_bool_again false false false = refl

-- Merging the flags into the common options a second time changes nothing.
pub common-idempotent :
    (f : Flags) (c : CommonOptions)
    → update_common_inputs_from_cli f (update_common_inputs_from_cli f c)
      ≡ update_common_inputs_from_cli f c
unfolding update_common_inputs_from_cli
common-idempotent f c = λ i. record {
  kubeconfig = pick_again (f.changed kubeconfig_flag) f.kubeconfig c.kubeconfig i;
  namespace = pick_again (f.changed namespace_flag) f.namespace c.namespace i;
  log_level = pick_again (f.changed log_level_flag) f.log_level c.log_level i;
  in_cluster = pick_bool_again (f.changed in_cluster_flag) f.in_cluster c.in_cluster i;
}

-- Where the flag `--in-cluster` is not given and so has its default false, the common options
-- say that the program is not in a cluster, whatever the input file says.
pub in_cluster-of_file_lost :
    (f : Flags) (c : CommonOptions)
    → f.changed in_cluster_flag ≡ false
    → f.in_cluster ≡ false
    → (update_common_inputs_from_cli f c).in_cluster ≡ false
unfolding update_common_inputs_from_cli
in_cluster-of_file_lost f c h k = ground (arith)

some≢none {ℓ} : {A : Type ℓ} {a : A} → some a ≢ none
some≢none h = ground arith

-- An amount for both resources.
abbrev pub HasBoth : ResourceList → Type 0
HasBoth rl = (lookup "cpu" rl ≢ none) × (lookup "memory" rl ≢ none)

module _ (lib : Libraries) where
  take_resource-HasBoth :
      (name : String) (given rl : ResourceList)
      → HasBoth rl
      → HasBoth (take_resource lib name given rl)
  unfolding take_resource
  take_resource-HasBoth name given rl h =
      let q = quantity_of lib name given in
      let c = lookup-insert name "cpu" q rl in
      let m = lookup-insert name "memory" q rl in ground (arith)

  update_resources-HasBoth :
      (text : String) (rl rl' : ResourceList)
      → HasBoth rl
      → update_resources lib text rl ≡ done rl'
      → HasBoth rl'
  unfolding update_resources
  update_resources-HasBoth text rl rl' h e = if-done HasBoth (text == "") rl rl' _ e h (λ e'.
      let (given, e1, e2) = bind-done _ _ e' in
      done-path HasBoth _ rl' e2
        (take_resource-HasBoth "memory" given _ (take_resource-HasBoth "cpu" given rl h)))

  update_res_req-HasBoth :
      (f : Flags) (r r' : ResourceRequirements)
      → HasBoth r.requests
      → HasBoth r.limits
      → update_res_req_from_cli lib f r ≡ done r'
      → HasBoth r'.requests × HasBoth r'.limits
  unfolding update_res_req_from_cli
  update_res_req-HasBoth f r r' h k e =
      let (requests, e1, e') = bind-done _ _ e in
      let (limits, e2, e3) = bind-done _ _ e' in
      done-path (λ x. HasBoth x.requests × HasBoth x.limits) _ r' e3
        (
          update_resources-HasBoth f.pod_requests r.requests requests h e1,
          update_resources-HasBoth f.pod_limits r.limits limits k e2,
        )

  defaults-HasBoth :
      (r : ResourceRequirements)
      → set_res_req_default_values lib ≡ done r
      → HasBoth r.requests × HasBoth r.limits
  unfolding set_res_req_default_values lookup
  defaults-HasBoth r e =
      let (a, e1, ea) = bind-done _ _ e in
      let (b, e2, eb) = bind-done _ _ ea in
      let (c, e3, ec) = bind-done _ _ eb in
      let (d, e4, ed) = bind-done _ _ ec in
      done-path (λ x. HasBoth x.requests × HasBoth x.limits) _ r ed
        ((some≢none, some≢none), (some≢none, some≢none))

  override-HasBoth :
      (f : Flags) (ops ops' : PreflightCmdOps)
      → HasBoth ops.run.resource_requirements.requests
      → HasBoth ops.run.resource_requirements.limits
      → override_preflight_file_inputs_from_cli lib f ops ≡ done ops'
      → HasBoth ops'.run.resource_requirements.requests
        × HasBoth ops'.run.resource_requirements.limits
  unfolding override_preflight_file_inputs_from_cli
  override-HasBoth f ops ops' h k e =
      let (q, e1, ea) = bind-done _ _ e in
      let (labels, e2, eb) = bind-done _ _ ea in
      let (r, e3, ec) = bind-done _ _ eb in
      done-path
        (λ x.
          HasBoth x.run.resource_requirements.requests × HasBoth x.run.resource_requirements.limits)
        _ ops' ec (update_res_req-HasBoth f _ r h k e3)

  -- Where no input file is named and the command accepts its flags, the run has an amount of CPU
  -- and of memory in its requests and in its limits, whatever the flags `--requests` and
  -- `--limits` leave out.
  pub inputs-HasBoth :
      (f : Flags) (ops ops' : PreflightCmdOps)
      → f.input_file_name ≡ ""
      → manage_preflight_inputs lib f ops ≡ done ops'
      → HasBoth ops'.run.resource_requirements.requests
        × HasBoth ops'.run.resource_requirements.limits
  unfolding manage_preflight_inputs with_resource_requirements
  inputs-HasBoth f ops ops' h e =
      let (r, e1, ea) = bind-done _ _ e in
      let (read, e2, eb) = bind-done _ _ ea in
      let (hr, hl) = defaults-HasBoth r e1 in
      let named : (f.input_file_name == "") ≡ true = (eq_iff f.input_file_name "").1 h in
      let (gr, gl) =
        if-true-done
          (λ x.
            HasBoth x.run.resource_requirements.requests
            × HasBoth x.run.resource_requirements.limits)
          (f.input_file_name == "") _ read _ named e2 (hr, hl) in
      override-HasBoth f read ops' gr gl eb
