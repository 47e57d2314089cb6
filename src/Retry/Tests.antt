-- ===== src/Retry/Tests.antt =====
-- A credential that is accepted at the third attempt, and a sleep that is cancelled.
use interview_labs.Prelude.{
  ℕ, ◌-◌, ◌≤◌, ◌<◌, Text, codes, Bool, true, Option, some, none, [], ◌∷◌, ◌≡◌, ◌↔◌, refl, ltb,
  length, if◌then◌else◌,
}
use interview_labs.Retry.{retry_delays, rounds, retry, retitled}
use interview_labs.Retry.Ends.{Succeeds, retry-Ends}

abbrev slow_key : ℕ → Option Text
slow_key i = if ltb i 2 then some (codes "denied") else none

abbrev awake : ℕ → Bool
awake i = true

third_attempt :
    retry slow_key awake retry_delays
    ≡ record { result = none; attempts = (1, 4) ∷ (2, 4) ∷ (3, 4) ∷ []; sleeps = 1000 ∷ 2000 ∷ [] }
unfolding retry rounds
third_attempt = refl

cancelled_sleep : retitled (retry slow_key (λ i. ltb i 1) retry_delays) ≡ (2, 4) ∷ []
unfolding retry rounds retitled
cancelled_sleep = refl

retry-Ends_example :
    (0 < length (retry slow_key awake retry_delays).attempts)
    × (length (retry slow_key awake retry_delays).attempts ≤ 4)
    × ((retry slow_key awake retry_delays).result
        ≡ slow_key (length (retry slow_key awake retry_delays).attempts - 1))
    × (((retry slow_key awake retry_delays).result ≡ none) ↔ Succeeds slow_key awake 0 3)
retry-Ends_example = retry-Ends slow_key awake retry_delays
