-- ===== src/Launch/Phases.antt =====
-- The phases of launch.go and local.go, each a function of the source.
use interview_labs.Prelude.{
  ℕ, Text, codes, Bool, true, false, ◌||◌, ◌&&◌, Option, none, some, List, [], ◌∷◌, if◌then◌else◌,
  is_empty, not, map, join,
}
use interview_labs.Pack.{Bundle, Scenario}
use interview_labs.Images.{ResolvedImages}
use interview_labs.Session.Metadata.{Phase, Status, session_url}
use interview_labs.Pipeline.{
  Op, Event, World, Act, Nothing, pure, gets, done, ◌>>=◌, ◌>>◌, perform, write, or_else,
}

-- launchInputs, as far as the phases read it: whether a key is minted, the images and the bundle.
pub record Inputs : Type 0 where
  pub ai : Bool
  pub images : ResolvedImages
  pub bundle : Option Bundle

abbrev pub has_kind : Option Bundle → Bool
has_kind none = false
has_kind (some b) = b.has_kind

abbrev pub has_setup : Option Bundle → Bool
has_setup none = false
has_setup (some b) = b.has_setup

abbrev pub has_bundle : Option Bundle → Bool
has_bundle none = false
has_bundle (some b) = true

abbrev pub when : Bool → Act Nothing → Act Nothing
when b m = if b then m else done

unfoldable pub scenario_csv : Option Bundle → Text
scenario_csv none = []
scenario_csv (some b) = join (map (λ (s : Scenario). s.name) b.scenarios) (codes ",")

-- Whether override.yaml stands in the stack directory.
abbrev wrote_override : Op → Bool
wrote_override Op.write_override = true
wrote_override _ = false

abbrev pub has_override : List Event → Bool
has_override [] = false
has_override (e ∷ t) = e.done && wrote_override e.op || has_override t

module _ (w : World) where
  -- session.go: SetPhase, SetStatus, SetIP, SetFQDN, SetURL
  unfoldable pub set_phase : Phase → Act Nothing
  set_phase p = write w (λ m. record m { phase = p })

  unfoldable pub set_status : Status → Act Nothing
  set_status st = write w (λ m. record m { status = st })

  unfoldable pub set_ip : Text → Act Nothing
  set_ip ip = write w (λ m. record m { ip = ip })

  unfoldable pub set_fqdn : Text → Act Nothing
  set_fqdn fqdn = write w (λ m. record m { fqdn = fqdn })

  unfoldable pub set_url : Text → Act Nothing
  set_url u = write w (λ m. record m { url = u })

  unfoldable pub stage_session : Inputs → Act Nothing
  stage_session i = do
    set_phase Phase.stage
    perform w Op.stage_terraform
    perform w Op.stage_stack
    when (has_bundle i.bundle) (do perform w Op.stage_payload; perform w Op.write_override)
    perform w Op.user_data
    perform w Op.write_tfvars

  unfoldable pub tf_init : Act Nothing
  tf_init = do set_phase Phase.terraform_init; perform w Op.tf_init

  unfoldable pub tf_apply : Act Nothing
  tf_apply = do set_phase Phase.terraform_apply; perform w Op.tf_apply

  unfoldable pub fetch_ip : Act Nothing
  fetch_ip = do
    set_phase Phase.outputs
    outputs ← gets (λ s. w.outputs s.trace)
    perform w Op.tf_outputs
    when (not (is_empty outputs.fqdn)) (set_fqdn outputs.fqdn)
    set_ip outputs.ip

  unfoldable pub apply_phases : Inputs → Act Nothing
  apply_phases i = do stage_session i; tf_init; tf_apply; fetch_ip

  unfoldable pub redial_ssh : Act Nothing
  redial_ssh = perform w Op.dial

  unfoldable pub wait_ssh : Act Nothing
  wait_ssh = do set_phase Phase.wait_ssh; redial_ssh

  unfoldable pub wait_cloud_init : Act Nothing
  wait_cloud_init = do
    set_phase Phase.cloud_init
    perform w Op.cloud_init_wait
    perform w (Op.write_log (codes "cloud-init.log"))

  unfoldable pub push_stack : Act Nothing
  push_stack = do
    set_phase Phase.push_stack
    perform w (Op.push_file (codes "compose.yaml"))
    staged ← gets (λ s. has_override s.trace)
    when staged (perform w (Op.push_file (codes "override.yaml")))

  unfoldable pub pull_stack : Inputs → Act Nothing
  pull_stack i = do
    set_phase Phase.pull_stack
    perform w (Op.open_log (codes "stack-pull.log"))
    perform w (Op.pull i.images.gateway i.images.vscode)

  unfoldable pub install_kind : Act Nothing
  install_kind = do
    set_phase Phase.install_kind
    perform w Op.install_kind
    perform w (Op.write_log (codes "kind-install.log"))

  unfoldable pub push_payload : Act Nothing
  push_payload = do
    set_phase Phase.push_payload
    perform w Op.write_payload_tar
    perform w Op.push_payload

  -- One round of the loop: create, apply, write the kubeconfig. The log is written on failure too.
  unfoldable pub cluster_command : ℕ → Act Nothing
  cluster_command n =
      or_else (perform w (Op.cluster_command n))
        (perform w (Op.write_log (codes "kind-create.log")))

  unfoldable pub create_cloud_cluster : Act Nothing
  create_cloud_cluster = do
    set_phase Phase.create_cluster
    cluster_command 0
    cluster_command 1
    cluster_command 2
    perform w (Op.write_log (codes "kind-create.log"))

  unfoldable pub bundle_phases : Inputs → Act Nothing
  bundle_phases i = when (has_bundle i.bundle) (do
    when (has_kind i.bundle) install_kind
    push_payload
    when (has_kind i.bundle) create_cloud_cluster)

  -- The key's hash is saved at once, so that whatever fails later the key can be revoked.
  unfoldable pub mint_ai_key : Act Text
  mint_ai_key = do
    set_phase Phase.ai_mint
    key ← gets (λ s. w.minted s.trace)
    perform w (Op.mint key.hash)
    write w (λ m. record m { ai_key_hash = key.hash; ai_cap_usd = key.cap_usd })
    pure key.key

  unfoldable pub up_stack : Text → Act Nothing
  up_stack ai_key = do
    set_phase Phase.compose_up
    m ← gets (λ s. s.meta)
    perform w (Op.compose_up m.gateway_password ai_key)
    perform w (Op.write_log (codes "stack-up.log"))
    set_url (session_url m)

  unfoldable pub run_cloud_setup : Inputs → Act Nothing
  run_cloud_setup i = do
    set_phase Phase.setup
    perform w (Op.run_setup (scenario_csv i.bundle))
    perform w (Op.write_log (codes "setup.log"))

  -- What follows the pull: the key, the stack, the setup hook.
  unfoldable pub mint_if : Bool → Act Text
  mint_if ai = if ai then mint_ai_key else pure []

  unfoldable pub start_stack : Inputs → Text → Act Nothing
  start_stack i ai_key = do up_stack ai_key; when (has_setup i.bundle) (run_cloud_setup i)

  unfoldable pub stack_phases : Inputs → Act Nothing
  stack_phases i = do
    push_stack
    pull_stack i
    bundle_phases i
    ai_key ← mint_if i.ai
    start_stack i ai_key

  unfoldable pub print_launch_summary : Act Nothing
  print_launch_summary = do set_phase Phase.summary; set_status Status.ready

  unfoldable pub run_launch : Inputs → Act Nothing
  run_launch i = do
    perform w Op.plugin_cache
    apply_phases i
    wait_ssh
    wait_cloud_init
    redial_ssh
    stack_phases i
    print_launch_summary
