-- ===== src/Doctor/Tests.antt =====
-- A machine without the tools of a cluster, and one whose credentials expired.
use interview_labs.Prelude.{codes, true, false, none, some, ◌≡◌, ◌↔◌, refl, text_eq}
use interview_labs.Prelude.Outcome.{ok, err}
use interview_labs.Doctor.{
  Tool, Host, Next, found_problems, run_doctor, tool_checks, cred_checks, each_cred, count_problems,
  doctor_next, check_terraform, check_ssh_client, check_kind_tools, check_kind_tool,
  check_state_dirs,
}
use interview_labs.Doctor.Verdict.{IsHealthy, SomeUsable, run_doctor-IsHealthy}

abbrev no_tool : Tool
no_tool = record { on_path = false; version = none }

abbrev laptop : Host
laptop = record {
  terraform = some (codes "tofu");
  ssh = false;
  kind = no_tool;
  kubectl = record { on_path = true; version = some (1, 30) };
  config_dir = true;
  state_dir = true;
  plugin_cache = true;
  configured = some (λ name. text_eq name (codes "aws"));
  valid = λ name. true;
}

ready : run_doctor laptop ≡ (Next.launch, ok tt)
unfolding run_doctor tool_checks cred_checks each_cred count_problems doctor_next check_terraform
    check_ssh_client check_kind_tools check_kind_tool check_state_dirs text_eq
ready = refl

expired : run_doctor (record laptop { valid = λ name. false }) ≡ (Next.init, err found_problems)
unfolding run_doctor tool_checks cred_checks each_cred count_problems doctor_next check_terraform
    check_ssh_client check_kind_tools check_kind_tool check_state_dirs text_eq
expired = refl

run_doctor-IsHealthy_example :
    (((run_doctor laptop).1 ≡ ok tt) ↔ IsHealthy laptop)
    × (((run_doctor laptop).0 ≡ Next.launch) ↔ (IsHealthy laptop × SomeUsable laptop.configured))
run_doctor-IsHealthy_example = run_doctor-IsHealthy laptop
