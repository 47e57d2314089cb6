-- ===== src/Launch/Local.antt =====
-- The phases of a session on this machine's docker engine (local.go).
use interview_labs.Prelude.{if◌then◌else◌, Text, codes}
use interview_labs.Session.Metadata.{Phase}
use interview_labs.Images.{validate}
use interview_labs.Pipeline.{Failure, raise, Op, World, Act, Nothing, ◌>>=◌, ◌>>◌, perform}
use interview_labs.Launch.Phases.{
  Inputs, has_kind, has_setup, has_bundle, when, scenario_csv, set_phase, set_url, mint_if,
  print_launch_summary,
}

abbrev pub local_password : Text
local_password = codes "openbuzz"

abbrev pub local_url : Text
local_url = codes "http://localhost:8080"

module _ (w : World) where
  unfoldable pub local_stage : Inputs → Act Nothing
  local_stage i = do
    set_phase w Phase.stage
    perform w Op.stage_stack
    when (has_bundle i.bundle) (do perform w Op.stage_payload; perform w Op.write_override)

  unfoldable pub local_create_cluster : Act Nothing
  local_create_cluster = do
    set_phase w Phase.create_cluster
    perform w (Op.open_log (codes "kind-create.log"))
    perform w Op.create_local_cluster

  unfoldable pub local_compose_up : Text → Act Nothing
  local_compose_up ai_key = do
    set_phase w Phase.compose_up
    perform w (Op.open_log (codes "stack-up.log"))
    perform w (Op.compose_up local_password ai_key)
    set_url w local_url

  unfoldable pub run_local_setup : Inputs → Act Nothing
  run_local_setup i = when (has_setup i.bundle) (do
    set_phase w Phase.setup
    perform w (Op.open_log (codes "setup.log"))
    perform w (Op.run_setup (scenario_csv i.bundle)))

  -- What follows the key.
  unfoldable pub start_local : Inputs → Text → Act Nothing
  start_local i ai_key = do local_compose_up ai_key; run_local_setup i; print_launch_summary w

  unfoldable pub run_local_stack : Inputs → Act Nothing
  run_local_stack i = do
    local_stage i
    when (has_kind i.bundle) local_create_cluster
    ai_key ← mint_if w i.ai
    start_local i ai_key

  -- The session exists before its images are resolved: invalid references fail its launch.
  unfoldable pub validated_stack : Inputs → Act Nothing
  validated_stack i = if validate i.images then run_local_stack i else raise Failure.invalid_images
