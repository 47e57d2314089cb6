-- ===== src/Launch/Recorded.antt =====
-- What a launch leaves of the AI key, whether it returns or fails.
use interview_labs.Prelude.{◌≡◌, refl, true}
use interview_labs.Session.Metadata.{Status}
use interview_labs.Pipeline.{State, World, Failure, Op, Act, Nothing}
use interview_labs.Pipeline.Triples.{
  Triple-if, Triple, Keeps, Triple-bind, Triple-catch, Triple-attempt, Triple-gets, Triple-raise,
  Triple-after, Triple-weaken,
}
use interview_labs.Launch.{fail_launch, launch, launch_local}
use interview_labs.Launch.Phases.{Inputs, stack_phases, run_launch, has_kind}
use interview_labs.Images.{validate}
use interview_labs.Launch.Local.{run_local_stack, validated_stack}
use interview_labs.Launch.Steps
use interview_labs.Launch.Mints.{PullFirst, no_mint, IsRecorded, any_order, pulled_order, MintOrder}
use interview_labs.Launch.Keys

module _ (w : World) (o : MintOrder) where
  Keeps-fail_launch : (e : Failure) → Keeps (Keys.After w o) (fail_launch w e)
  unfolding fail_launch
  Keeps-fail_launch e =
      Triple-bind _ _
        (Triple-attempt _ (
          Steps.Keeps-set_status w _ (Keys.After-performed w o) (Keys.After-written w o)
            Status.failed))
        (λ _. Triple-bind _ _ (Triple-gets _) (λ m. Triple-raise _ (λ s h. h)))

module _ (w : World) (i : Inputs) where
  before :
      {m : Act Nothing}
      → Keeps (Keys.Before w) m
      → Triple (Keys.Before w) (Keys.Before w) (Keys.After w pulled_order) m
  before = Keys.early w pulled_order

  Triple-stack_phases :
      Triple
        (Keys.Before w)
        (Keys.After w pulled_order)
        (Keys.After w pulled_order)
        (stack_phases w i)
  unfolding stack_phases
  Triple-stack_phases =
      Triple-bind _ _
        (before (Steps.Keeps-push_stack w _ (Keys.Before-performed w) (Keys.Before-written w)))
        (λ _.
          Triple-bind _ _
            (Triple-weaken _ (λ s h. h) (λ s h. h) (Keys.Before-After w pulled_order)
              (Keys.Triple-pull_stack w i))
            (λ _.
              Triple-bind _ _
                (Keys.pulled w pulled_order (
                  Steps.Keeps-bundle_phases w _ (Keys.Pulled-performed w pulled_order)
                    (Keys.Pulled-written w pulled_order) i))
                (λ _. Triple-bind _ _ (Keys.Triple-mint_if w pulled_order i.ai) (λ k.
                  Steps.Keeps-start_stack w _ (Keys.After-performed w pulled_order)
                    (Keys.After-written w pulled_order) i k))))

  Triple-run_launch :
      Triple
        (Keys.Before w)
        (Keys.After w pulled_order)
        (Keys.After w pulled_order)
        (run_launch w i)
  unfolding run_launch
  Triple-run_launch =
      Triple-bind _ _ (before (Keys.Before-performed w Op.plugin_cache refl refl)) (λ _.
        Triple-bind _ _
          (before
            (Steps.Keeps-apply_phases w _ (Keys.Before-performed w) (Keys.Before-written w) i))
          (λ _.
            Triple-bind _ _
              (before (Steps.Keeps-wait_ssh w _ (Keys.Before-performed w) (Keys.Before-written w)))
              (λ _.
                Triple-bind _ _
                  (before (
                    Steps.Keeps-wait_cloud_init w _ (Keys.Before-performed w)
                      (Keys.Before-written w)))
                  (λ _.
                    Triple-bind _ _
                      (before (
                        Steps.Keeps-redial_ssh w _ (Keys.Before-performed w)
                          (Keys.Before-written w)))
                      (λ _. Triple-bind _ _ Triple-stack_phases (λ _.
                        Steps.Keeps-print_launch_summary w _ (Keys.After-performed w pulled_order)
                          (Keys.After-written w pulled_order)))))))

  Triple-run_local_stack :
      Triple (Keys.Before w) (Keys.After w any_order) (Keys.After w any_order) (run_local_stack w i)
  unfolding run_local_stack
  Triple-run_local_stack =
      Triple-bind _ _
        (Keys.early w any_order
          (Steps.Keeps-local_stage w _ (Keys.Before-performed w) (Keys.Before-written w) i))
        (λ _.
          Triple-bind _ _
            (Keys.early w any_order (
              Steps.Keeps-when w _ (Keys.Before-performed w) (Keys.Before-written w)
                (has_kind i.bundle) _
                (Steps.Keeps-local_create_cluster w _ (Keys.Before-performed w)
                  (Keys.Before-written w))))
            (λ _.
              Triple-bind _ _
                (Triple-weaken _ (λ s h. (h, tt)) (λ s h. h) (λ s h. h)
                  (Keys.Triple-mint_if w any_order i.ai))
                (λ k.
                  Steps.Keeps-start_local w _ (Keys.After-performed w any_order)
                    (Keys.After-written w any_order) i k)))

  Triple-validated_stack :
      Triple (Keys.Before w) (Keys.After w any_order) (Keys.After w any_order) (validated_stack w i)
  unfolding validated_stack
  Triple-validated_stack =
      Triple-if (validate i.images) _ _ (λ _. Triple-run_local_stack)
        (λ _. Triple-raise _ (Keys.Before-After w any_order))

  cloud-IsRecorded :
      (s : State)
      → no_mint s.trace ≡ true
      → IsRecorded (launch w i s).1 × PullFirst (launch w i s).1.trace
  unfolding launch
  cloud-IsRecorded s h =
      Triple-after _ s (Triple-catch _ _ Triple-run_launch (Keeps-fail_launch w pulled_order)) h

  local-IsRecorded : (s : State) → no_mint s.trace ≡ true → IsRecorded (launch_local w i s).1
  unfolding launch_local
  local-IsRecorded s h =
      (Triple-after _ s (Triple-catch _ _ Triple-validated_stack (Keeps-fail_launch w any_order))
        h).0

  -- From a session for which no mint was tried, a launch, in the cloud or on this machine, whether it
  -- returns or fails, leaves at most one minted key, whose hash stands in the session, and in the
  -- cloud every attempt to mint has a successful pull of the images before it.
  pub launch-IsRecorded :
      (s : State)
      → no_mint s.trace ≡ true
      → IsRecorded (launch w i s).1
        × PullFirst (launch w i s).1.trace
        × IsRecorded (launch_local w i s).1
  launch-IsRecorded s h = let (r, p) = cloud-IsRecorded s h in (r, p, local-IsRecorded s h)
