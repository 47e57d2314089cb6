-- ===== src/Launch/Returns.antt =====
-- Launches in a world where nothing fails.
use interview_labs.Prelude.{Text, Bool, true, false, [], ◌≡◌, arith}
use interview_labs.Pipeline.{State, World, Result, ok, err, Act, Nothing}
use interview_labs.Pipeline.Total.{IsCalm, Total, total_rules, Total-pure, Total-catch, Total-ok}
use interview_labs.Session.Metadata.{Status}
use interview_labs.Launch.Outcome.{IsFinished, launch-IsFinished}
use interview_labs.Images.{validate}
use interview_labs.Launch.{launch, launch_local}
use interview_labs.Launch.Phases.{
  Inputs, when, set_phase, set_status, set_ip, set_fqdn, set_url, stage_session, tf_init, tf_apply,
  fetch_ip, apply_phases, redial_ssh, wait_ssh, wait_cloud_init, push_stack, pull_stack,
  install_kind, push_payload, cluster_command, create_cloud_cluster, bundle_phases, mint_ai_key,
  mint_if, up_stack, run_cloud_setup, start_stack, stack_phases, print_launch_summary, run_launch,
}
use interview_labs.Launch.Local.{
  local_stage, local_create_cluster, local_compose_up, run_local_setup, start_local,
  run_local_stack, validated_stack,
}

module _ (w : World) (calm : IsCalm w) where
  Total-when : (b : Bool) (m : Act Nothing) → Total m → Total (when b m)
  Total-when true m k = k
  Total-when false m k = Total-pure tt

  Total-apply_phases : (i : Inputs) → Total (apply_phases w i)
  unfolding apply_phases stage_session tf_init tf_apply fetch_ip set_phase set_ip set_fqdn
  Total-apply_phases i = search (total_rules, Total-when) depth 24

  Total-bundle_phases : (i : Inputs) → Total (bundle_phases w i)
  unfolding bundle_phases install_kind push_payload create_cloud_cluster cluster_command set_phase
  Total-bundle_phases i = search (total_rules, Total-when) depth 24

  Total-mint_if : (b : Bool) → Total (mint_if w b)
  unfolding mint_if mint_ai_key set_phase
  Total-mint_if true = search (total_rules) depth 24
  Total-mint_if false = Total-pure []

  Total-start_stack : (i : Inputs) (k : Text) → Total (start_stack w i k)
  unfolding start_stack up_stack run_cloud_setup set_phase set_url
  Total-start_stack i k = search (total_rules, Total-when) depth 24

  Total-stack_phases : (i : Inputs) → Total (stack_phases w i)
  unfolding stack_phases push_stack pull_stack set_phase
  Total-stack_phases i =
      search (total_rules, Total-when, Total-bundle_phases, Total-mint_if, Total-start_stack) depth
        24

  Total-print_launch_summary : Total (print_launch_summary w)
  unfolding print_launch_summary set_phase set_status
  Total-print_launch_summary = search (total_rules) depth 12

  Total-run_launch : (i : Inputs) → Total (run_launch w i)
  unfolding run_launch wait_ssh wait_cloud_init redial_ssh set_phase
  Total-run_launch i =
      search (total_rules, Total-apply_phases, Total-stack_phases, Total-print_launch_summary) depth
        24

  Total-run_local_stack : (i : Inputs) → Total (run_local_stack w i)
  unfolding run_local_stack local_stage local_create_cluster start_local local_compose_up
      run_local_setup set_phase set_url
  Total-run_local_stack i =
      search (total_rules, Total-when, Total-mint_if, Total-print_launch_summary) depth 24

  Total-validated_stack : (i : Inputs) → validate i.images ≡ true → Total (validated_stack w i)
  unfolding validated_stack
  Total-validated_stack i v = rw v (Total-run_local_stack i)

  Total-launch : (i : Inputs) → Total (launch w i)
  unfolding launch
  Total-launch i = Total-catch _ _ (Total-run_launch i)

  Total-launch_local : (i : Inputs) → validate i.images ≡ true → Total (launch_local w i)
  unfolding launch_local
  Total-launch_local i v = Total-catch _ _ (Total-validated_stack i v)

  ready_at :
      (r : Result Nothing) (s : State) → r ≡ ok tt → IsFinished r s → s.saved.status ≡ Status.ready
  unfolding IsFinished
  ready_at (ok a) s e h = h.0
  ready_at (err x) s e h = ground arith

  -- If no operation outside fails and the images are valid, a launch in the cloud and a launch on this
  -- machine both return, and the session that each leaves on disk is ready.
  pub launch-returns :
      (i : Inputs) (s : State)
      → validate i.images ≡ true
      → ((launch w i s).0 ≡ ok tt)
        × ((launch w i s).1.saved.status ≡ Status.ready)
        × ((launch_local w i s).0 ≡ ok tt)
        × ((launch_local w i s).1.saved.status ≡ Status.ready)
  launch-returns i s v =
      let cloud = Total-ok (launch w i) (Total-launch i) s in
      let here = Total-ok (launch_local w i) (Total-launch_local i v) s in
      (
        cloud,
        ready_at _ _ cloud (launch-IsFinished w i s).0,
        here,
        ready_at _ _ here (launch-IsFinished w i s).1,
      )
