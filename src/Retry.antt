-- ===== src/Retry.antt =====
-- internal/provider/retry.go: a read of a provider that is tried again. What the attempts return, and
-- whether the sleeps between them run to their end, are parameters; both are counted from 0.
pub mod Ends
pub mod Tests
use interview_labs.Prelude.{
  ℕ, suc, ◌+◌, Text, Bool, Option, none, some, List, [], ◌∷◌, if◌then◌else◌, length, keep, ltb,
}

-- The error that is returned, what onAttempt was told, and the sleeps that were begun.
pub record Retried : Type 0 where
  pub result : Option Text
  pub attempts : List (ℕ × ℕ)
  pub sleeps : List ℕ

-- In milliseconds.
abbrev pub retry_delays : List ℕ
retry_delays = 1000 ∷ 2000 ∷ 4000 ∷ []

module _ (fn : ℕ → Option Text) (sleeps : ℕ → Bool) (total : ℕ) where
  -- The loop from its round i on, with the delays that are left.
  unfoldable pub rounds : ℕ → List ℕ → Retried
  rounds i [] = record { result = fn i; attempts = (i + 1, total) ∷ []; sleeps = [] }
  rounds i (d ∷ ds) =
      let next = rounds (suc i) ds in
      elim (fn i) [
        | none ↦ record { result = none; attempts = (i + 1, total) ∷ []; sleeps = [] }
        | some e ↦
            if sleeps i
            then record {
              result = next.result;
              attempts = (i + 1, total) ∷ next.attempts;
              sleeps = d ∷ next.sleeps;
            }
            else record { result = some e; attempts = (i + 1, total) ∷ []; sleeps = d ∷ [] }
      ]

unfoldable pub retry : (ℕ → Option Text) → (ℕ → Bool) → List ℕ → Retried
unfolding rounds
retry fn sleeps delays = rounds fn sleeps (length delays + 1) 0 delays

-- The attempts for which TestCredentials changes the title of its row.
unfoldable pub retitled : Retried → List (ℕ × ℕ)
retitled r = keep (λ a. ltb 1 a.0) r.attempts
