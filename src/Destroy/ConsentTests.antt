-- ===== src/Destroy/ConsentTests.antt =====
-- The destroy command on a session of the store.
use interview_labs.Prelude.{
  codes, Bool, true, false, text_eq, Option, none, some, [], ◌∷◌, ◌≡◌, refl,
}
use interview_labs.Prelude.Assoc.{lookup}
use interview_labs.Prelude.Outcome.{Outcome, ok}
use interview_labs.Session.Metadata.{role_of}
use interview_labs.Session.Store.{Session, MetadataFile, get, list, sort_by_age, readable}
use interview_labs.Session.Resolve.{resolve_session}
use interview_labs.Providers.{vm_by_name, by_role}
use interview_labs.Terraform.{sort_texts, find_named, run_env}
use interview_labs.Terraform.Env.{getenv, or_else}
use interview_labs.Terraform.Tests.{tofu_only, tofu}
use interview_labs.Pipeline.{World}
use interview_labs.Config.{Config, zero_config}
use interview_labs.Credentials.{named_creds, env_creds, digital_ocean_token}
use interview_labs.Root.{CmdError}
use interview_labs.Launch.Tests.{begun, calm}
use interview_labs.Destroy.Command.{
  Desk, Runner, Refusal, Destroyed, destroy_plan, destroy_runner, confirm_destroy_gate,
  run_destroy_cmd,
}
use interview_labs.Destroy.Consent.{IsOrderly, run_destroy_cmd-IsOrderly}
use interview_labs.Destroy.Creds.{IsBinary, destroy_runner-getenv}

abbrev otter : Session
otter = record { dir = codes "brave-otter"; meta = begun }

-- The token of the cloud is in the configuration file.
abbrev config : Config
config = record zero_config {
  providers = record zero_config.providers {
    digital_ocean = record zero_config.providers.digital_ocean { token = codes "t" };
  };
}

-- A desk where the operator answers the form as given.
abbrev desk : Outcome CmdError Bool → Desk
desk answer = record {
  store = record {
    sessions =
        (codes "brave-otter", record { file = MetadataFile.holds begun; has_logs = true }) ∷ [];
    archives = [];
  };
  elsewhere = λ ref. none;
  is_tty = true;
  pick = none;
  confirm = λ s. answer;
  locks = λ s. true;
  config = some config;
  programs = tofu_only;
  env = λ name. [];
  plugin_cache = some (codes "/c");
  environ = codes "HOME=/h" ∷ [];
}

abbrev world : Option Runner → World
world r = calm

run_destroy_cmd-IsOrderly_example :
    IsOrderly (desk (ok true)) world [] false (run_destroy_cmd (desk (ok true)) world [] false)
run_destroy_cmd-IsOrderly_example = run_destroy_cmd-IsOrderly (desk (ok true)) world [] false

declined : run_destroy_cmd (desk (ok false)) world [] false ≡ Destroyed.refused Refusal.declined
unfolding run_destroy_cmd destroy_plan confirm_destroy_gate resolve_session list sort_by_age
    readable get lookup text_eq
declined = refl

abbrev runner : Runner
runner = record {
  bin = tofu;
  env =
      codes "HOME=/h"
      ∷ codes "DIGITALOCEAN_TOKEN=t"
      ∷ codes "TF_PLUGIN_CACHE_DIR=/c"
      ∷ codes "TF_IN_AUTOMATION=1"
      ∷ [];
}

has_runner : destroy_runner (desk (ok true)) config otter ≡ ok runner
unfolding destroy_runner find_named run_env sort_texts text_eq lookup role_of vm_by_name by_role
    named_creds env_creds digital_ocean_token
has_runner = refl

destroy_runner-getenv_example :
    IsBinary (desk (ok true)) config otter tofu
    × (getenv runner.env (codes "DIGITALOCEAN_TOKEN")
        ≡ or_else (some (codes "t")) (getenv (codes "HOME=/h" ∷ []) (codes "DIGITALOCEAN_TOKEN")))
unfolding lookup role_of text_eq named_creds env_creds digital_ocean_token
destroy_runner-getenv_example =
    destroy_runner-getenv (desk (ok true)) config otter runner (codes "DIGITALOCEAN_TOKEN")
      has_runner refl refl
