-- ===== src/Init/Tests.antt =====
-- A token that is rejected once, then a pair that is accepted.
use interview_labs.Prelude.{
  ℕ, Text, codes, true, Option, none, some, List, [], ◌∷◌, ◌≡◌, refl, text_eq,
}
use interview_labs.Prelude.Outcome.{ok, err}
use interview_labs.Config.{zero_config}
use interview_labs.Credentials.{Vendor}
use interview_labs.Retry.{retry, rounds}
use interview_labs.Root.{CmdError}
use interview_labs.Init.{
  Round, InitEnd, configure, configure_digital_ocean, configure_aws, pick_init_action,
  run_init_loop,
}
use interview_labs.Init.Vetted.{AreVetted, run_init_loop-AreVetted}

abbrev left_form : CmdError
left_form = CmdError.aborted (codes "user aborted")

-- Only the pair is accepted.
abbrev only_pair : Vendor → List Text → ℕ → Option Text
only_pair v creds i = elim v [ Vendor.aws ↦ none | _ ↦ some (codes "denied") ]

abbrev round_of : Text → Round
round_of name = record {
  pick = ok name;
  token = ok (codes "t");
  pair = ok (codes "id", codes "key");
  key_cap = err left_form;
  zones = none;
  pick_zone = err left_form;
  manual_zone = err left_form;
  checks = only_pair;
  sleeps = λ i. true;
  can_write = true;
}

abbrev evening : List Round
evening = round_of (codes "digitalocean") ∷ round_of (codes "aws") ∷ round_of (codes "exit") ∷ []

stored : run_init_loop evening zero_config zero_config ≡ (
  InitEnd.left,
  record zero_config {
    providers = record zero_config.providers {
      aws = record zero_config.providers.aws {
        access_key_id = codes "id";
        secret_access_key = codes "key";
      };
    };
  },
)
unfolding run_init_loop configure configure_digital_ocean configure_aws pick_init_action retry
    rounds text_eq
stored = refl

run_init_loop-AreVetted_example :
    AreVetted Vendor.aws zero_config evening (run_init_loop evening zero_config zero_config).1
run_init_loop-AreVetted_example = run_init_loop-AreVetted Vendor.aws evening zero_config
