-- ===== src/Launch/Outcome.antt =====
-- How a launch ends.
use interview_labs.Prelude.{◌≡◌, refl}
use interview_labs.Session.Metadata.{Status, Phase}
use interview_labs.Pipeline.{
  State, World, Failure, Result, ok, err, launch_failed, Act, Nothing, ◌>>=◌, attempt, catch,
  recover, continue, gets, raise,
}
use interview_labs.Pipeline.Triples.{
  Triple-if, Triple-raise, Triple, Post, Triple-bind, Triple-write, Triple-after,
}
use interview_labs.Launch.{fail_launch, launch, launch_local}
use interview_labs.Launch.Phases.{Inputs, set_phase, set_status, print_launch_summary, run_launch}
use interview_labs.Images.{validate}
use interview_labs.Launch.Local.{run_local_stack, validated_stack, start_local}

abbrev Anything : State → Type 0
Anything s = Unit

abbrev IsReady : State → Type 0
IsReady s = (s.saved.status ≡ Status.ready) × (s.saved.phase ≡ Phase.summary) × (s.saved ≡ s.meta)

-- A launch that returns left a session that is ready on disk. One that fails names the phase that the
-- session stands in, with the status failed.
unfoldable pub IsFinished : Result Nothing → State → Type 0
IsFinished (ok a) s = IsReady s
IsFinished (err e) s = (e ≡ launch_failed s.meta.phase) × (s.meta.status ≡ Status.failed)

Post-any : {A : Type 0} (r : Result A) (s : State) → Post Anything Anything r s
Post-any (ok a) s = tt
Post-any (err e) s = tt

module _ (w : World) where
  Triple-any : {A : Type 0} (m : Act A) → Triple Anything Anything Anything m
  Triple-any m = record { at = λ s h. Post-any (m s).0 (m s).1 }

  Triple-print_launch_summary : Triple Anything IsReady Anything (print_launch_summary w)
  unfolding print_launch_summary set_phase set_status
  Triple-print_launch_summary =
      Triple-bind {Q = λ s. s.meta.phase ≡ Phase.summary} _ _
        (Triple-write w _ (λ s h. tt) (λ s h. refl))
        (λ _. Triple-write w _ (λ s h. tt) (λ s h. (refl, h, refl)))

  later :
      {A B : Type 0} (m : Act A) (f : A → Act B)
      → ((a : A) → Triple Anything IsReady Anything (f a))
      → Triple Anything IsReady Anything (m >>= f)
  later m f k = Triple-bind m f (Triple-any m) k

  Triple-run_launch : (i : Inputs) → Triple Anything IsReady Anything (run_launch w i)
  unfolding run_launch
  Triple-run_launch i = later _ _ (λ _. later _ _ (λ _.
      later _ _
        (λ _. later _ _ (λ _. later _ _ (λ _. later _ _ (λ _. Triple-print_launch_summary))))))

  Triple-run_local_stack : (i : Inputs) → Triple Anything IsReady Anything (run_local_stack w i)
  unfolding run_local_stack start_local
  Triple-run_local_stack i = later _ _ (λ _.
      later _ _
        (λ _. later _ _ (λ k. later _ _ (λ _. later _ _ (λ _. Triple-print_launch_summary)))))

  Triple-validated_stack : (i : Inputs) → Triple Anything IsReady Anything (validated_stack w i)
  unfolding validated_stack
  Triple-validated_stack i =
      Triple-if (validate i.images) _ _ (λ _. Triple-run_local_stack i)
        (λ _. Triple-raise _ (λ s h. tt))

  Triple-set_status :
      (st : Status)
      → Triple Anything (λ s. s.meta.status ≡ st) (λ s. s.meta.status ≡ st) (set_status w st)
  unfolding set_status
  Triple-set_status st = Triple-write w _ (λ s h. refl) (λ s h. refl)

  told :
      (x : Result Nothing × State)
      → x.1.meta.status ≡ Status.failed
      → (let (r, s') = attempt (λ _. x) x.1 in
          let (r', s'') =
            continue r (λ _. gets (λ s. s.meta) >>= λ m. raise (launch_failed m.phase)) s' in
          IsFinished r' s'')
  unfolding attempt catch gets raise ◌>>=◌ IsFinished
  told (ok a, s') h = (refl, h)
  told (err e, s') h = (refl, h)

  IsFinished-fail_launch :
      (e : Failure) (s : State) → IsFinished (fail_launch w e s).0 (fail_launch w e s).1
  unfolding fail_launch attempt catch gets raise ◌>>=◌
  IsFinished-fail_launch e s =
      told (set_status w Status.failed s) (Triple-after _ s (Triple-set_status Status.failed) tt)

  finished :
      (r : Result Nothing) (s : State)
      → Post IsReady Anything r s
      → IsFinished (recover r (fail_launch w) s).0 (recover r (fail_launch w) s).1
  unfolding IsFinished
  finished (ok a) s h = h
  finished (err e) s h = IsFinished-fail_launch e s

  -- A launch that returns, in the cloud or on this machine, leaves metadata.json with the status
  -- ready and the phase summary, the session in memory the same. One that fails returns the phase
  -- that the session stands in, and the session has the status failed.
  pub launch-IsFinished :
      (i : Inputs) (s : State)
      → IsFinished (launch w i s).0 (launch w i s).1
        × IsFinished (launch_local w i s).0 (launch_local w i s).1
  unfolding launch launch_local catch
  launch-IsFinished i s = (
    finished (run_launch w i s).0 (run_launch w i s).1 ((Triple-run_launch i).at s tt),
    finished (validated_stack w i s).0 (validated_stack w i s).1
        ((Triple-validated_stack i).at s tt),
  )
