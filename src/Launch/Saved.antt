-- ===== src/Launch/Saved.antt =====
-- The session in memory and the session on disk, and the archive, through a launch.
use interview_labs.Prelude.{◌≡◌, refl, Bool, true, false, List, [], ◌∷◌, if◌then◌else◌}
use interview_labs.Session.Metadata.{Metadata}
use interview_labs.Pipeline.{logged, Op, Event, State, World, perform, write}
use interview_labs.Pipeline.Triples.{Keeps, Triple-after, Triple-perform, Triple-write, keeps_rules}
use interview_labs.Launch.{launch}
use interview_labs.Launch.Phases.{Inputs, set_phase, mint_ai_key}
use interview_labs.Launch.Steps
use interview_labs.Launch.Whole.{Keeps-launch}
use interview_labs.Destroy.Order.{has_done, is_archive}
use native.Mathlib.Omega.{arith}

abbrev is_metadata : Op → Bool
is_metadata (Op.write_metadata m) = true
is_metadata _ = false

-- Whether the last write of metadata.json succeeded.
abbrev pub last_written : List Event → Bool
last_written [] = true
last_written (e ∷ t) = if is_metadata e.op then e.done else last_written t

-- metadata.json is the session in memory, if the last write succeeded.
abbrev pub IsSaved : State → Type 0
IsSaved s = last_written s.trace ≡ true → s.saved ≡ s.meta

abbrev pub NotArchived : State → Type 0
NotArchived s = has_done is_archive s.trace ≡ false

not_metadata : (op : Op) → Steps.is_store op ≡ false → is_metadata op ≡ false
not_metadata op e = ground arith

unwritten :
    (s : State) (op : Op) (b : Bool) → IsSaved s → is_metadata op ≡ false → IsSaved (logged op b s)
unwritten s op b k e q = k (ground arith)

module _ (w : World) where
  IsSaved-performed :
      (op : Op)
      → Steps.is_mint op ≡ false
      → Steps.is_store op ≡ false
      → Keeps IsSaved (perform w op)
  IsSaved-performed op _ e =
      Triple-perform w op (λ s k. unwritten s op false k (not_metadata op e))
        (λ s k. unwritten s op true k (not_metadata op e))

  IsSaved-written : (f : Metadata → Metadata) → Keeps IsSaved (write w f)
  IsSaved-written f = Triple-write w f (λ s k q. ground arith) (λ s k q. refl)

  IsSaved-mint_ai_key : Keeps IsSaved (mint_ai_key w)
  unfolding mint_ai_key set_phase
  IsSaved-mint_ai_key = search (keeps_rules, IsSaved-written, Triple-perform) depth 12

  NotArchived-performed :
      (op : Op)
      → Steps.is_mint op ≡ false
      → Steps.is_store op ≡ false
      → Keeps NotArchived (perform w op)
  NotArchived-performed op _ e = Triple-perform w op (λ s k. ground arith) (λ s k. ground arith)

  NotArchived-written : (f : Metadata → Metadata) → Keeps NotArchived (write w f)
  NotArchived-written f = Triple-write w f (λ s k. k) (λ s k. k)

  NotArchived-mint_ai_key : Keeps NotArchived (mint_ai_key w)
  unfolding mint_ai_key set_phase
  NotArchived-mint_ai_key = search (keeps_rules, NotArchived-written, Triple-perform) depth 12

  pub launch-IsSaved : (i : Inputs) (s : State) → IsSaved s → IsSaved (launch w i s).1
  launch-IsSaved i s h =
      Triple-after _ s
        (Keeps-launch w IsSaved IsSaved-performed (λ f _. IsSaved-written f) IsSaved-mint_ai_key i)
        h

  pub launch-NotArchived : (i : Inputs) (s : State) → NotArchived s → NotArchived (launch w i s).1
  launch-NotArchived i s h =
      Triple-after _ s
        (Keeps-launch w NotArchived NotArchived-performed (λ f _. NotArchived-written f)
          NotArchived-mint_ai_key i)
        h
