-- ===== src/Launch.antt =====
-- internal/cli/launch.go and local.go: the phases of a launch, from the staged session to the
-- handover. What is printed, the contexts' deadlines and the closing of the ssh connection are not
-- modelled.
pub mod Phases
pub mod Plan
pub mod Planned
pub mod Decided
mod PlanTests
pub mod Local
pub mod Steps
pub mod Mints
pub mod Keys
pub mod Recorded
pub mod Whole
pub mod Saved
pub mod Outcome
pub mod Returns
pub mod Phased
pub mod Order
pub mod Sizes
pub mod Cheapest
pub mod Offered
pub mod SizesTests
pub mod Tests
use interview_labs.Prelude.{Bool}
use interview_labs.Session.Metadata.{Metadata, Status}
use interview_labs.Pipeline.{
  World, State, Failure, launch_failed, Result, ok, err, Act, Nothing, raise, gets, catch, attempt,
  ◌>>=◌, ◌>>◌,
}
use interview_labs.Launch.Phases.{Inputs, set_status, run_launch}
use interview_labs.Launch.Local.{validated_stack}

module _ (w : World) where
  -- The error of SetStatus is dropped; what is returned names the phase.
  unfoldable pub fail_launch : Failure → Act Nothing
  fail_launch e = do
    attempt (set_status w Status.failed)
    m ← gets (λ s. s.meta)
    raise (launch_failed m.phase)

  -- The end of runCloudLaunch, once the session is locked.
  unfoldable pub launch : Inputs → Act Nothing
  launch i = catch (run_launch w i) fail_launch

  -- The same of runLocalLaunch.
  unfoldable pub launch_local : Inputs → Act Nothing
  launch_local i = catch (validated_stack w i) fail_launch
