-- ===== src/Launch/Order.antt =====
-- The phases on disk through both launches.
use interview_labs.Prelude.{ℕ, Text, Bool, true, false, ◌≡◌, refl}
use interview_labs.Session.Metadata.{Phase}
use interview_labs.Pipeline.{Op, State, World, Failure, Act, Nothing}
use interview_labs.Pipeline.Triples.{
  Triple-if, Keeps, Triple-bind, Triple-catch, Triple-attempt, Triple-gets, Triple-raise,
  Triple-after, Keeps-bind, Keeps-pure,
}
use interview_labs.Launch.{fail_launch, launch, launch_local}
use interview_labs.Launch.Phases.{
  Inputs, when, set_status, set_ip, set_fqdn, set_url, stage_session, tf_init, tf_apply, fetch_ip,
  apply_phases, redial_ssh, wait_ssh, wait_cloud_init, push_stack, pull_stack, install_kind,
  push_payload, cluster_command, create_cloud_cluster, bundle_phases, mint_ai_key, up_stack,
  run_cloud_setup, mint_if, start_stack, stack_phases, print_launch_summary, run_launch,
}
use interview_labs.Images.{validate}
use interview_labs.Launch.Local.{
  local_stage, local_create_cluster, local_compose_up, run_local_setup, start_local,
  run_local_stack, validated_stack,
}
use interview_labs.Launch.Phased.{
  Phased, Within, in_phase, phase_rules, Within-or_else, Within-perform, Phased-perform,
  Phased-write,
}

module _ (w : World) where
  Phased-stage_session : (i : Inputs) → Keeps Phased (stage_session w i)
  unfolding stage_session
  Phased-stage_session i = search (phase_rules) depth 16

  Phased-tf_init : Keeps Phased (tf_init w)
  unfolding tf_init
  Phased-tf_init = search (phase_rules) depth 16

  Phased-tf_apply : Keeps Phased (tf_apply w)
  unfolding tf_apply
  Phased-tf_apply = search (phase_rules) depth 16

  Phased-fetch_ip : Keeps Phased (fetch_ip w)
  unfolding fetch_ip set_ip set_fqdn
  Phased-fetch_ip = search (phase_rules) depth 16

  Phased-redial_ssh : Keeps Phased (redial_ssh w)
  unfolding redial_ssh
  Phased-redial_ssh = Phased-perform w Op.dial (λ q. refl)

  Phased-wait_ssh : Keeps Phased (wait_ssh w)
  unfolding wait_ssh redial_ssh
  Phased-wait_ssh = search (phase_rules) depth 16

  Phased-wait_cloud_init : Keeps Phased (wait_cloud_init w)
  unfolding wait_cloud_init
  Phased-wait_cloud_init = search (phase_rules) depth 16

  Phased-push_stack : Keeps Phased (push_stack w)
  unfolding push_stack
  Phased-push_stack = search (phase_rules) depth 16

  Phased-pull_stack : (i : Inputs) → Keeps Phased (pull_stack w i)
  unfolding pull_stack
  Phased-pull_stack i = search (phase_rules) depth 16

  Phased-install_kind : Keeps Phased (install_kind w)
  unfolding install_kind
  Phased-install_kind = search (phase_rules) depth 16

  Phased-push_payload : Keeps Phased (push_payload w)
  unfolding push_payload
  Phased-push_payload = search (phase_rules) depth 16

  Within-cluster_command : (n : ℕ) → Within Phase.create_cluster (cluster_command w n)
  unfolding cluster_command
  Within-cluster_command n =
      Within-or_else w _ _ _ (Within-perform w _ _ refl) (Phased-perform w _ (λ q. refl))

  Phased-create_cloud_cluster : Keeps Phased (create_cloud_cluster w)
  unfolding create_cloud_cluster
  Phased-create_cloud_cluster = search (phase_rules, Within-cluster_command) depth 16

  Phased-mint_ai_key : Keeps Phased (mint_ai_key w)
  unfolding mint_ai_key
  Phased-mint_ai_key = search (phase_rules) depth 16

  Phased-up_stack : (k : Text) → Keeps Phased (up_stack w k)
  unfolding up_stack set_url
  Phased-up_stack k = search (phase_rules) depth 16

  Phased-run_cloud_setup : (i : Inputs) → Keeps Phased (run_cloud_setup w i)
  unfolding run_cloud_setup
  Phased-run_cloud_setup i = search (phase_rules) depth 16

  Phased-print_launch_summary : Keeps Phased (print_launch_summary w)
  unfolding print_launch_summary set_status
  Phased-print_launch_summary = search (phase_rules) depth 16

  Phased-local_stage : (i : Inputs) → Keeps Phased (local_stage w i)
  unfolding local_stage
  Phased-local_stage i = search (phase_rules) depth 16

  Phased-local_create_cluster : Keeps Phased (local_create_cluster w)
  unfolding local_create_cluster
  Phased-local_create_cluster = search (phase_rules) depth 16

  Phased-local_compose_up : (k : Text) → Keeps Phased (local_compose_up w k)
  unfolding local_compose_up set_url
  Phased-local_compose_up k = search (phase_rules) depth 16

  Phased-when : (b : Bool) (m : Act Nothing) → Keeps Phased m → Keeps Phased (when b m)
  Phased-when true m k = k
  Phased-when false m k = Keeps-pure _

  Phased-bundle_phases : (i : Inputs) → Keeps Phased (bundle_phases w i)
  unfolding bundle_phases
  Phased-bundle_phases i =
      search
        (
          Keeps-bind, Phased-when, Phased-install_kind, Phased-push_payload,
          Phased-create_cloud_cluster,
        )
        depth 12

  Phased-apply_phases : (i : Inputs) → Keeps Phased (apply_phases w i)
  unfolding apply_phases
  Phased-apply_phases i =
      search (Keeps-bind, Phased-stage_session, Phased-tf_init, Phased-tf_apply, Phased-fetch_ip)
        depth 12

  Phased-mint_if : (b : Bool) → Keeps Phased (mint_if w b)
  unfolding mint_if
  Phased-mint_if true = Phased-mint_ai_key
  Phased-mint_if false = Keeps-pure _

  Phased-start_stack : (i : Inputs) (k : Text) → Keeps Phased (start_stack w i k)
  unfolding start_stack
  Phased-start_stack i k =
      search (Keeps-bind, Phased-when, Phased-up_stack, Phased-run_cloud_setup) depth 12

  Phased-stack_phases : (i : Inputs) → Keeps Phased (stack_phases w i)
  unfolding stack_phases
  Phased-stack_phases i =
      search
        (
          Keeps-bind, Phased-push_stack, Phased-pull_stack, Phased-bundle_phases, Phased-mint_if,
          Phased-start_stack,
        )
        depth 12

  Phased-run_launch : (i : Inputs) → Keeps Phased (run_launch w i)
  unfolding run_launch
  Phased-run_launch i = Keeps-bind _ _ (Phased-perform w Op.plugin_cache (λ q. refl)) (λ _.
      search
        (
          Keeps-bind, Phased-apply_phases, Phased-wait_ssh, Phased-wait_cloud_init,
          Phased-redial_ssh, Phased-stack_phases, Phased-print_launch_summary,
        )
        depth 16)

  Phased-run_local_setup : (i : Inputs) → Keeps Phased (run_local_setup w i)
  unfolding run_local_setup
  Phased-run_local_setup i = search (Phased-when, phase_rules) depth 16

  Phased-start_local : (i : Inputs) (k : Text) → Keeps Phased (start_local w i k)
  unfolding start_local
  Phased-start_local i k =
      search
        (Keeps-bind, Phased-local_compose_up, Phased-run_local_setup, Phased-print_launch_summary)
        depth 12

  Phased-run_local_stack : (i : Inputs) → Keeps Phased (run_local_stack w i)
  unfolding run_local_stack
  Phased-run_local_stack i =
      search
        (
          Keeps-bind, Phased-when, Phased-local_stage, Phased-local_create_cluster, Phased-mint_if,
          Phased-start_local,
        )
        depth 12

  Phased-validated_stack : (i : Inputs) → Keeps Phased (validated_stack w i)
  unfolding validated_stack
  Phased-validated_stack i =
      Triple-if (validate i.images) _ _ (λ _. Phased-run_local_stack i)
        (λ _. Triple-raise _ (λ s h. h))

  Phased-fail_launch : (e : Failure) → Keeps Phased (fail_launch w e)
  unfolding fail_launch set_status
  Phased-fail_launch e =
      Triple-bind _ _ (Triple-attempt _ (Phased-write w _))
        (λ _. Triple-bind _ _ (Triple-gets _) (λ m. Triple-raise _ (λ s h. h)))

  -- Through a launch in the cloud or on this machine, whether it returns or fails, every step that has
  -- a phase runs with that phase on disk, if that held of the steps before it.
  pub launch-in_phase :
      (i : Inputs) (s : State)
      → in_phase s.trace ≡ true
      → (in_phase (launch w i s).1.trace ≡ true) × (in_phase (launch_local w i s).1.trace ≡ true)
  unfolding launch launch_local
  launch-in_phase i s h = (
    Triple-after _ s (Triple-catch _ _ (Phased-run_launch i) Phased-fail_launch) h,
    Triple-after _ s (Triple-catch _ _ (Phased-validated_stack i) Phased-fail_launch) h,
  )
