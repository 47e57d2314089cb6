-- ===== src/Launch/Whole.antt =====
-- What every phase keeps, a whole launch keeps.
use interview_labs.Prelude.{◌≡◌, Bool, false, true, refl}
use interview_labs.Session.Metadata.{Metadata, Status}
use interview_labs.Pipeline.{Op, State, World, Failure, Act, Nothing, ◌>>◌, perform, write}
use interview_labs.Pipeline.Triples.{
  Triple-if, Keeps, Keeps-bind, Keeps-gets, Keeps-raise, Keeps-pure, Triple-catch, Triple-attempt,
}
use interview_labs.Launch.{fail_launch, launch, launch_local}
use interview_labs.Launch.Phases.{Inputs, stack_phases, run_launch, mint_ai_key, mint_if, has_kind}
use interview_labs.Images.{validate}
use interview_labs.Launch.Local.{run_local_stack, validated_stack}
use interview_labs.Launch.Steps

module _ (w : World) (P : State → Type 0)
    (performed : (op : Op)
      → Steps.is_mint op ≡ false
      → Steps.is_store op ≡ false
      → Keeps P (perform w op))
    (written : (f : Metadata → Metadata) → Steps.KeepsHash f → Keeps P (write w f))
    (minted : Keeps P (mint_ai_key w)) where
  Keeps-mint_if : (b : Bool) → Keeps P (mint_if w b)
  unfolding mint_if
  Keeps-mint_if true = minted
  Keeps-mint_if false = Keeps-pure _

  Keeps-then : (m n : Act Nothing) → Keeps P m → Keeps P n → Keeps P (m >> n)
  Keeps-then m n km kn = Keeps-bind m _ km (λ _. kn)

  Keeps-stack_phases : (i : Inputs) → Keeps P (stack_phases w i)
  unfolding stack_phases
  Keeps-stack_phases i = Keeps-then _ _ (Steps.Keeps-push_stack w P performed written) (
      Keeps-then _ _ (Steps.Keeps-pull_stack w P performed written i) (
        Keeps-then _ _ (Steps.Keeps-bundle_phases w P performed written i)
          (Keeps-bind _ _ (Keeps-mint_if i.ai) (Steps.Keeps-start_stack w P performed written i))))

  Keeps-run_launch : (i : Inputs) → Keeps P (run_launch w i)
  unfolding run_launch
  Keeps-run_launch i = Keeps-then _ _ (performed Op.plugin_cache refl refl) (
      Keeps-then _ _ (Steps.Keeps-apply_phases w P performed written i) (
        Keeps-then _ _ (Steps.Keeps-wait_ssh w P performed written) (
          Keeps-then _ _ (Steps.Keeps-wait_cloud_init w P performed written) (
            Keeps-then _ _ (Steps.Keeps-redial_ssh w P performed written) (
              Keeps-then _ _ (Keeps-stack_phases i)
                (Steps.Keeps-print_launch_summary w P performed written))))))

  Keeps-run_local_stack : (i : Inputs) → Keeps P (run_local_stack w i)
  unfolding run_local_stack
  Keeps-run_local_stack i = Keeps-then _ _ (Steps.Keeps-local_stage w P performed written i) (
      Keeps-then _ _
        (Steps.Keeps-when w P performed written (has_kind i.bundle) _
          (Steps.Keeps-local_create_cluster w P performed written))
        (Keeps-bind _ _ (Keeps-mint_if i.ai) (Steps.Keeps-start_local w P performed written i)))

  Keeps-validated_stack : (i : Inputs) → Keeps P (validated_stack w i)
  unfolding validated_stack
  Keeps-validated_stack i =
      Triple-if (validate i.images) _ _ (λ _. Keeps-run_local_stack i) (λ _. Keeps-raise _)

  Keeps-fail_launch : (e : Failure) → Keeps P (fail_launch w e)
  unfolding fail_launch
  Keeps-fail_launch e =
      Keeps-then _ _ (Triple-attempt _ (Steps.Keeps-set_status w P performed written Status.failed))
        (Keeps-bind _ _ (Keeps-gets _) (λ m. Keeps-raise _))

  pub Keeps-launch : (i : Inputs) → Keeps P (launch w i)
  unfolding launch
  Keeps-launch i = Triple-catch _ _ (Keeps-run_launch i) Keeps-fail_launch

  pub Keeps-launch_local : (i : Inputs) → Keeps P (launch_local w i)
  unfolding launch_local
  Keeps-launch_local i = Triple-catch _ _ (Keeps-validated_stack i) Keeps-fail_launch
