-- ===== src/Gateway/Limiter/Tests.antt =====
-- The limiter at concrete inputs: three attempts for each window of 30.
use interview_labs.Prelude.{
  ℕ, codes, List, [], ◌∷◌, ◌≡◌, refl, arith, text_eq, ◌&&◌, ◌-◌, ◌*◌, if◌then◌else◌,
}
use interview_labs.Prelude.Int.{pos, leb_ℤ, ◌+ℤ◌}
use interview_labs.Prelude.Assoc.{lookup, insert, remove_if}
use interview_labs.Gateway.Limiter.{Limiter, new_limiter, allow, sweep, size, refill}
use interview_labs.Gateway.Limiter.Credit.{credit, credit-sweep, allow-IsValid}
use interview_labs.Gateway.Limiter.Refined.{spend, grown_by, allow_refines}
use interview_labs.Gateway.Limiter.Rate.{
  Event, attempt, clean, admitted, IsValid-new, IsValid-later,
}

abbrev start : Limiter
start = new_limiter 3 30

abbrev ann : List ℕ
ann = codes "10.0.0.1"

abbrev bob : List ℕ
bob = codes "10.0.0.2"

-- Three attempts at once, a fourth refused, one more after ten; a sweep in between is not seen.
abbrev events : List Event
events =
    attempt ann 5
    ∷ attempt ann 5
    ∷ attempt bob 6
    ∷ attempt ann 6
    ∷ attempt ann 7
    ∷ clean 8
    ∷ attempt ann 15
    ∷ attempt ann 16
    ∷ []

four_of_six : admitted ann start events ≡ 4
unfolding admitted new_limiter allow sweep lookup insert remove_if refill text_eq ◌+ℤ◌
four_of_six = refl

swept_away : size (sweep (allow start ann 5).0 66) ≡ 0
unfolding size sweep new_limiter allow lookup insert remove_if refill text_eq ◌+ℤ◌
swept_away = refl

allow_refines_example :
    ((allow start ann 7).1 ≡ leb_ℤ (pos start.window) (credit start ann 7))
    × (credit (allow start ann 7).0 ann 7 ≡ (
        if text_eq ann ann && leb_ℤ (pos start.window) (credit start ann 7)
        then spend start (credit start ann 7)
        else credit start ann 7))
    × (credit (allow start ann 7).0 ann 12
        ≡ grown_by start (12 - 7) (credit (allow start ann 7).0 ann 7))
    × (credit (new_limiter start.burst start.window) ann 7 ≡ pos (start.burst * start.window))
allow_refines_example = allow_refines start ann ann 7 12 (omega arith)

credit-sweep_example :
    credit (sweep (allow start ann 5).0 70) ann 71 ≡ credit (allow start ann 5).0 ann 71
credit-sweep_example =
    credit-sweep (allow start ann 5).0 70 71 ann
      (IsValid-later (allow start ann 5).0 5 70 (omega arith)
        (allow-IsValid start ann 0 5 (IsValid-new 3 30 0) (omega arith)))
      (omega arith)
