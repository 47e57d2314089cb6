-- ===== src/Launch/PlanTests.antt =====
-- A launch command with its flags given, off a terminal.
use interview_labs.Prelude.{codes, true, false, ◌||◌, none, some, [], ◌≡◌, refl, text_eq, ends_with}
use interview_labs.Prelude.Assoc.{lookup, insert}
use interview_labs.Prelude.Outcome.{ok}
use interview_labs.Pack.{bundle_by_name}
use interview_labs.Pack.Tests.{pack}
use interview_labs.Images.{resolve_images, validate, gateway_ref, vscode_ref}
use interview_labs.Version.{resolve_pins, parse_vscode_digests, add_pairs, split, cut}
use interview_labs.Images.Tests.{release}
use interview_labs.Providers.{by_role, select_vm_provider, active_ai, active_access}
use interview_labs.Providers.Tests.{hetzner}
use interview_labs.Launch.Plan.{
  Flags, Answers, Machine, CloudPlan, provision, run_launch_cmd, ensure_bundle, remember,
  profile_for, bundle_profile, key_source, ensure_region_size, confirm_gate, plan_cloud,
}
use interview_labs.Launch.Decided.{IsDecided, run_launch_cmd-IsDecided}

abbrev flags : Flags
flags = record {
  provider = [];
  region = codes "fsn1";
  size = codes "cx22";
  profile = [];
  images = record { image = []; gateway = []; tag = [] };
  pack_ref = [];
  bundle = codes "devops";
  yes = false;
  no_ai = false;
  no_dns = false;
}

abbrev script : Answers
script = record {
  is_tty = false;
  provider = none;
  profile = none;
  bundle = none;
  region_size = none;
  confirm = none;
}

abbrev machine : Machine
machine = record {
  configured = λ name. text_eq name (codes "hetzner") || text_eq name (codes "openrouter");
  saved_profile = [];
  can_write = true;
  resolve_pack = λ ref. some pack;
  terraform = some (record { binary = codes "tofu"; version = codes "1.9" });
  build = release;
  store = record { sessions = []; archives = [] };
  has_kind_bins = false;
}

abbrev cloud : CloudPlan
cloud = record {
  plan = record {
    host = hetzner;
    profile = codes "devops-ai";
    bundle = bundle_by_name pack (codes "devops");
    ai = active_ai machine.configured false;
  };
  access = none;
  images = resolve_images release flags.images (codes "devops-ai");
  terraform = record { binary = codes "tofu"; version = codes "1.9" };
  region = codes "fsn1";
  size = codes "cx22";
}

decides : run_launch_cmd machine script flags ≡ ok (provision cloud)
unfolding run_launch_cmd ensure_bundle remember profile_for bundle_profile key_source plan_cloud
    ensure_region_size confirm_gate select_vm_provider active_ai active_access by_role
    bundle_by_name text_eq ends_with validate resolve_images gateway_ref vscode_ref resolve_pins
    parse_vscode_digests add_pairs split cut lookup insert
decides = refl

run_launch_cmd-IsDecided_example : IsDecided machine script flags (provision cloud)
run_launch_cmd-IsDecided_example =
    run_launch_cmd-IsDecided machine script flags (provision cloud) decides
