-- ===== src/Launch/Steps.antt =====
-- What every phase but the mint keeps.
use interview_labs.Prelude.{Text, Bool, true, false, ◌≡◌, refl}
use interview_labs.Session.Metadata.{Metadata, Phase, Status}
use interview_labs.Pipeline.{Op, World, State, Act, Nothing, perform, write}
use interview_labs.Pipeline.Triples.{Keeps, Keeps-pure, keeps_rules}
use interview_labs.Launch.Phases.{
  Inputs, when, set_phase, set_status, set_ip, set_fqdn, set_url, stage_session, tf_init, tf_apply,
  fetch_ip, apply_phases, redial_ssh, wait_ssh, wait_cloud_init, push_stack, pull_stack,
  install_kind, push_payload, cluster_command, create_cloud_cluster, bundle_phases, up_stack,
  run_cloud_setup, start_stack, print_launch_summary,
}
use interview_labs.Launch.Local.{
  local_stage, local_create_cluster, local_compose_up, run_local_setup, start_local,
}

abbrev pub is_mint : Op → Bool
is_mint (Op.mint hash) = true
is_mint _ = false

-- What moves the session's own files.
abbrev pub is_store : Op → Bool
is_store (Op.write_metadata m) = true
is_store (Op.archive_dir slug) = true
is_store (Op.archive slug) = true
is_store (Op.archive_logs slug) = true
is_store (Op.remove_session slug) = true
is_store _ = false

-- A change of the session that leaves the key's hash alone.
abbrev pub KeepsHash : (Metadata → Metadata) → Type 0
KeepsHash f = (m : Metadata) → (f m).ai_key_hash ≡ m.ai_key_hash

module _ (w : World) (P : State → Type 0)
    (performed : (op : Op) → is_mint op ≡ false → is_store op ≡ false → Keeps P (perform w op))
    (written : (f : Metadata → Metadata) → KeepsHash f → Keeps P (write w f)) where
  pub Keeps-when : (b : Bool) (m : Act Nothing) → Keeps P m → Keeps P (when b m)
  Keeps-when true m k = k
  Keeps-when false m k = Keeps-pure tt

  pub Keeps-set_phase : (p : Phase) → Keeps P (set_phase w p)
  unfolding set_phase
  Keeps-set_phase p = written _ (λ m. refl)

  pub Keeps-set_status : (st : Status) → Keeps P (set_status w st)
  unfolding set_status
  Keeps-set_status st = written _ (λ m. refl)

  Keeps-set_ip : (ip : Text) → Keeps P (set_ip w ip)
  unfolding set_ip
  Keeps-set_ip ip = written _ (λ m. refl)

  Keeps-set_fqdn : (fqdn : Text) → Keeps P (set_fqdn w fqdn)
  unfolding set_fqdn
  Keeps-set_fqdn fqdn = written _ (λ m. refl)

  Keeps-set_url : (u : Text) → Keeps P (set_url w u)
  unfolding set_url
  Keeps-set_url u = written _ (λ m. refl)

  ruleset steps = (
    keeps_rules, Keeps-when, Keeps-set_phase, Keeps-set_status, Keeps-set_ip, Keeps-set_fqdn,
    Keeps-set_url,
  )

  pub Keeps-stage_session : (i : Inputs) → Keeps P (stage_session w i)
  unfolding stage_session
  Keeps-stage_session i = search (steps, performed) depth 16

  pub Keeps-tf_init : Keeps P (tf_init w)
  unfolding tf_init
  Keeps-tf_init = search (steps, performed) depth 16

  pub Keeps-tf_apply : Keeps P (tf_apply w)
  unfolding tf_apply
  Keeps-tf_apply = search (steps, performed) depth 16

  pub Keeps-fetch_ip : Keeps P (fetch_ip w)
  unfolding fetch_ip
  Keeps-fetch_ip = search (steps, performed) depth 16

  pub Keeps-apply_phases : (i : Inputs) → Keeps P (apply_phases w i)
  unfolding apply_phases
  Keeps-apply_phases i =
      search (steps, Keeps-stage_session, Keeps-tf_init, Keeps-tf_apply, Keeps-fetch_ip) depth 16

  pub Keeps-redial_ssh : Keeps P (redial_ssh w)
  unfolding redial_ssh
  Keeps-redial_ssh = search (steps, performed) depth 16

  pub Keeps-wait_ssh : Keeps P (wait_ssh w)
  unfolding wait_ssh
  Keeps-wait_ssh = search (steps, Keeps-redial_ssh) depth 16

  pub Keeps-wait_cloud_init : Keeps P (wait_cloud_init w)
  unfolding wait_cloud_init
  Keeps-wait_cloud_init = search (steps, performed) depth 16

  pub Keeps-push_stack : Keeps P (push_stack w)
  unfolding push_stack
  Keeps-push_stack = search (steps, performed) depth 16

  pub Keeps-pull_stack : (i : Inputs) → Keeps P (pull_stack w i)
  unfolding pull_stack
  Keeps-pull_stack i = search (steps, performed) depth 16

  pub Keeps-install_kind : Keeps P (install_kind w)
  unfolding install_kind
  Keeps-install_kind = search (steps, performed) depth 16

  pub Keeps-push_payload : Keeps P (push_payload w)
  unfolding push_payload
  Keeps-push_payload = search (steps, performed) depth 16

  pub Keeps-create_cloud_cluster : Keeps P (create_cloud_cluster w)
  unfolding create_cloud_cluster cluster_command
  Keeps-create_cloud_cluster = search (steps, performed) depth 16

  pub Keeps-bundle_phases : (i : Inputs) → Keeps P (bundle_phases w i)
  unfolding bundle_phases
  Keeps-bundle_phases i =
      search (steps, Keeps-install_kind, Keeps-push_payload, Keeps-create_cloud_cluster) depth 16

  pub Keeps-up_stack : (k : Text) → Keeps P (up_stack w k)
  unfolding up_stack
  Keeps-up_stack k = search (steps, performed) depth 16

  pub Keeps-run_cloud_setup : (i : Inputs) → Keeps P (run_cloud_setup w i)
  unfolding run_cloud_setup
  Keeps-run_cloud_setup i = search (steps, performed) depth 16

  pub Keeps-start_stack : (i : Inputs) (k : Text) → Keeps P (start_stack w i k)
  unfolding start_stack
  Keeps-start_stack i k = search (steps, Keeps-up_stack, Keeps-run_cloud_setup) depth 16

  pub Keeps-print_launch_summary : Keeps P (print_launch_summary w)
  unfolding print_launch_summary
  Keeps-print_launch_summary = search (steps) depth 16

  pub Keeps-start_local : (i : Inputs) (k : Text) → Keeps P (start_local w i k)
  unfolding start_local local_compose_up run_local_setup
  Keeps-start_local i k = search (steps, performed, Keeps-print_launch_summary) depth 16

  -- What a local launch does before the key.
  pub Keeps-local_stage : (i : Inputs) → Keeps P (local_stage w i)
  unfolding local_stage
  Keeps-local_stage i = search (steps, performed) depth 16

  pub Keeps-local_create_cluster : Keeps P (local_create_cluster w)
  unfolding local_create_cluster
  Keeps-local_create_cluster = search (steps, performed) depth 16
