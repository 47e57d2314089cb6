-- ===== src/Terraform/Tests.antt =====
-- The search for the program, and the order of the environment.
use interview_labs.Prelude.{codes, text_eq, none, some, [], ◌∷◌, if◌then◌else◌, ◌≡◌, refl}
use interview_labs.Prelude.Assoc.{lookup, insert}
use interview_labs.Prelude.Outcome.{ok}
use interview_labs.Terraform.{
  Binary, Programs, find, find_named, run_env, merge_creds, sort_texts, text_lt,
}

-- A machine with tofu alone.
abbrev pub tofu_only : Programs
tofu_only = record {
  look_path = λ name. if text_eq name (codes "tofu") then some (codes "/bin/tofu") else none;
  version_output = λ path. some (codes "1.9.0");
  parse_version = λ out. some out;
}

abbrev pub tofu : Binary
tofu = record { name = codes "tofu"; path = codes "/bin/tofu"; version = codes "1.9.0" }

finds_tofu : find tofu_only ≡ ok tofu
unfolding find find_named text_eq
finds_tofu = refl

sorted_env :
    run_env
      (merge_creds (((codes "B", codes "1") ∷ []) ∷ ((codes "A", codes "2") ∷ []) ∷ []) [])
      (codes "/c")
      (codes "HOME=/h" ∷ [])
    ≡ codes "HOME=/h"
      ∷ codes "A=2"
      ∷ codes "B=1"
      ∷ codes "TF_PLUGIN_CACHE_DIR=/c"
      ∷ codes "TF_IN_AUTOMATION=1"
      ∷ []
unfolding run_env merge_creds sort_texts text_lt insert lookup text_eq
sorted_env = refl
