-- ===== src/Destroy/Tests.antt =====
-- Destroying a launched session, in a world where nothing fails.
use interview_labs.Prelude.{text_eq, ◌≡◌, refl, All}
use interview_labs.Prelude.Assoc.{lookup}
use interview_labs.Session.Metadata.{migrate, role_of}
use interview_labs.Pipeline.{
  State, ok, pure, raise, gets, ◌>>=◌, or_else, catch, attempt, perform, write,
}
use interview_labs.Providers.{ai_by_name, by_role}
use interview_labs.Launch.{launch}
use interview_labs.Launch.Phases.{
  scenario_csv, set_phase, set_status, set_ip, set_fqdn, set_url, stage_session, tf_init, tf_apply,
  fetch_ip, apply_phases, redial_ssh, wait_ssh, wait_cloud_init, push_stack, pull_stack,
  install_kind, push_payload, cluster_command, create_cloud_cluster, bundle_phases, mint_ai_key,
  up_stack, run_cloud_setup, mint_if, start_stack, stack_phases, print_launch_summary, run_launch,
}
use interview_labs.Launch.Mints.{minted_keys}
use interview_labs.Launch.Tests.{calm, start, inputs}
use interview_labs.Destroy.{revoke_ai_key, tear_down, archive, run_destroy, run_local_destroy}
use interview_labs.Destroy.Order.{IsRevoked}
use interview_labs.Destroy.Returns.{run_destroy-returns}
use interview_labs.Destroy.Revoked.{reload, minted_keys-IsRevoked}

abbrev launched : State
launched = (launch calm inputs start).1

destroy_returns : (run_destroy calm (reload launched)).0 ≡ ok tt
unfolding run_destroy reload migrate revoke_ai_key tear_down archive role_of lookup text_eq
    ai_by_name by_role attempt launch run_launch perform write ◌>>=◌ catch pure gets raise or_else
    set_phase set_status set_ip set_fqdn set_url stage_session tf_init tf_apply fetch_ip
    apply_phases redial_ssh wait_ssh wait_cloud_init push_stack pull_stack install_kind push_payload
    cluster_command create_cloud_cluster bundle_phases mint_ai_key up_stack run_cloud_setup mint_if
    start_stack stack_phases print_launch_summary scenario_csv
destroy_returns = refl

minted_keys-IsRevoked_example :
    All (λ k. IsRevoked k (run_destroy calm (reload launched)).1.trace) (minted_keys launched.trace)
unfolding launch run_launch perform write ◌>>=◌ catch pure gets raise or_else set_phase set_status
    set_ip set_fqdn set_url stage_session tf_init tf_apply fetch_ip apply_phases redial_ssh wait_ssh
    wait_cloud_init push_stack pull_stack install_kind push_payload cluster_command
    create_cloud_cluster bundle_phases mint_ai_key up_stack run_cloud_setup mint_if start_stack
    stack_phases print_launch_summary scenario_csv
minted_keys-IsRevoked_example =
    minted_keys-IsRevoked calm calm inputs start refl refl (λ e. refl) refl destroy_returns

run_destroy-returns_example :
    ((run_destroy calm start).0 ≡ ok tt) × ((run_local_destroy calm start).0 ≡ ok tt)
run_destroy-returns_example = run_destroy-returns calm (λ op t. refl) start refl
