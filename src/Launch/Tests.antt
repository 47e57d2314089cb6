-- ===== src/Launch/Tests.antt =====
-- launch.go and local.go at a concrete session: a bundle with a cluster, an AI key, and a world
-- where nothing fails, or where compose up does.
use interview_labs.Prelude.{codes, Bool, true, false, some, [], ◌∷◌, ◌≡◌, refl}
use interview_labs.Pack.{Bundle}
use interview_labs.Session.Metadata.{Metadata, Phase, Status}
use interview_labs.Pipeline.{
  Op, World, State, ok, err, launch_failed, pure, raise, gets, ◌>>=◌, or_else, catch, attempt,
  perform, write,
}
use interview_labs.Launch.{launch, launch_local, fail_launch}
use interview_labs.Launch.Phases.{
  Inputs, scenario_csv, set_phase, set_status, set_ip, set_fqdn, set_url, stage_session, tf_init,
  tf_apply, fetch_ip, apply_phases, redial_ssh, wait_ssh, wait_cloud_init, push_stack, pull_stack,
  install_kind, push_payload, cluster_command, create_cloud_cluster, bundle_phases, mint_ai_key,
  up_stack, run_cloud_setup, mint_if, start_stack, stack_phases, print_launch_summary, run_launch,
}
use interview_labs.Launch.Mints.{IsRecorded, PullFirst, minted_keys}
use interview_labs.Launch.Recorded.{launch-IsRecorded}
use interview_labs.Launch.Outcome.{IsFinished, launch-IsFinished}
use interview_labs.Images.{validate}
use interview_labs.Launch.Returns.{launch-returns}
use interview_labs.Launch.Phased.{in_phase}
use interview_labs.Launch.Order.{launch-in_phase}

abbrev is_up : Op → Bool
is_up (Op.compose_up password key) = true
is_up _ = false

abbrev pub calm : World
calm = record {
  fails = λ op t. false;
  outputs = λ t. record { ip = codes "203.0.113.7"; fqdn = [] };
  minted = λ t. record { hash = codes "h1"; cap_usd = 5; key = codes "sk-1" };
}

abbrev pub stormy : World
stormy = record calm { fails = λ op t. is_up op }

abbrev pub begun : Metadata
begun = record {
  schema = 2;
  slug = codes "brave-otter";
  created_at = 0;
  region = codes "fra1";
  size = codes "s-2vcpu-2gb";
  image = codes "ubuntu";
  profile = codes "devops-ai";
  pack = codes "default";
  bundle = codes "devops";
  kind = true;
  roles = some ((codes "vm", codes "digitalocean") ∷ (codes "ai", codes "openrouter") ∷ []);
  ssh_user = codes "root";
  terraform = record { binary = codes "tofu"; version = codes "1.9.0" };
  ip = [];
  fqdn = [];
  ai_key_hash = [];
  ai_cap_usd = 0;
  gateway_password = codes "00ff";
  url = [];
  status = Status.launching;
  phase = Phase.session;
}

abbrev pub start : State
start = record { meta = begun; saved = begun; trace = [] }

abbrev devops : Bundle
devops = record {
  name = codes "devops";
  description = [];
  image = codes "devops";
  has_lab = true;
  has_setup = true;
  has_kind = true;
  scenarios = record { name = codes "pods"; title = []; description = [] } ∷ [];
}

abbrev pub inputs : Inputs
inputs = record {
  ai = true;
  images = record { gateway = codes "gw:1"; vscode = codes "vs:1"; warning = false };
  bundle = some devops;
}

launch_returns : (launch calm inputs start).0 ≡ ok tt
unfolding launch run_launch perform write ◌>>=◌ catch pure gets raise or_else set_phase set_status
    set_ip set_fqdn set_url stage_session tf_init tf_apply fetch_ip apply_phases redial_ssh wait_ssh
    wait_cloud_init push_stack pull_stack install_kind push_payload cluster_command
    create_cloud_cluster bundle_phases mint_ai_key up_stack run_cloud_setup mint_if start_stack
    stack_phases print_launch_summary scenario_csv
launch_returns = refl

-- The key was minted before compose up failed, and its hash is kept.
launch_fails :
    ((launch stormy inputs start).0 ≡ err (launch_failed Phase.compose_up))
    × ((launch stormy inputs start).1.saved.ai_key_hash ≡ codes "h1")
    × (minted_keys (launch stormy inputs start).1.trace ≡ codes "h1" ∷ [])
unfolding launch run_launch fail_launch attempt perform write ◌>>=◌ catch pure gets raise or_else
    set_phase set_status set_ip set_fqdn set_url stage_session tf_init tf_apply fetch_ip
    apply_phases redial_ssh wait_ssh wait_cloud_init push_stack pull_stack install_kind push_payload
    cluster_command create_cloud_cluster bundle_phases mint_ai_key up_stack run_cloud_setup mint_if
    start_stack stack_phases print_launch_summary scenario_csv
launch_fails = (refl, refl, refl)

launch-IsFinished_example :
    IsFinished (launch stormy inputs start).0 (launch stormy inputs start).1
    × IsFinished (launch_local stormy inputs start).0 (launch_local stormy inputs start).1
launch-IsFinished_example = launch-IsFinished stormy inputs start

launch-IsRecorded_example :
    IsRecorded (launch stormy inputs start).1
    × PullFirst (launch stormy inputs start).1.trace
    × IsRecorded (launch_local stormy inputs start).1
launch-IsRecorded_example = launch-IsRecorded stormy inputs start refl

launch-in_phase_example :
    (in_phase (launch stormy inputs start).1.trace ≡ true)
    × (in_phase (launch_local stormy inputs start).1.trace ≡ true)
launch-in_phase_example = launch-in_phase stormy inputs start refl

launch-returns_example :
    ((launch calm inputs start).0 ≡ ok tt)
    × ((launch calm inputs start).1.saved.status ≡ Status.ready)
    × ((launch_local calm inputs start).0 ≡ ok tt)
    × ((launch_local calm inputs start).1.saved.status ≡ Status.ready)
launch-returns_example = launch-returns calm (λ op t. refl) inputs start (unfold validate in refl)
