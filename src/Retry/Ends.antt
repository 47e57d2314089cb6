-- ===== src/Retry/Ends.antt =====
-- How the retries end.
use interview_labs.Prelude.{
  ℕ, suc, ◌+◌, ◌-◌, ◌≤◌, ◌<◌, Text, Bool, true, Option, none, List, [], ◌∷◌, length, ◌≡◌, ◌↔◌, refl,
  arith, Bool-cases, Option-cases, inl, inr, ◌⊎◌, ap, sym, ◌∙◌,
}
use interview_labs.Retry.{rounds, retry}

at_or_after : (i k : ℕ) → i ≤ k → (i ≡ k) ⊎ (i < k)
at_or_after i k h = ground arith

module _ (fn : ℕ → Option Text) (sleeps : ℕ → Bool) where
  -- An attempt from `i` on, with `n` delays left, that succeeds and that no cancelled sleep keeps
  -- the loop from.
  abbrev pub Succeeds : ℕ → ℕ → Type 0
  Succeeds i n =
      (k : ℕ) × (i ≤ k) × (k ≤ i + n) × (fn k ≡ none) × ((j : ℕ) → i ≤ j → j < k → sleeps j ≡ true)

  module _ (total : ℕ) where
    rounds-length :
        (i : ℕ) (ds : List ℕ)
        → (0 < length (rounds fn sleeps total i ds).attempts)
          × (length (rounds fn sleeps total i ds).attempts ≤ length ds + 1)
    unfolding rounds
    rounds-length i [] = ground arith
    rounds-length i (d ∷ ds) = ground (arith, rounds-length (suc i) ds)

    rounds-last :
        (i : ℕ) (ds : List ℕ)
        → (rounds fn sleeps total i ds).result
          ≡ fn (i + (length (rounds fn sleeps total i ds).attempts - 1))
    unfolding rounds
    rounds-last i [] = ap fn (omega arith)
    rounds-last i (d ∷ ds) = elim (Option-cases (fn i)) [
      | inl e ↦ rw (e, rounds) (sym e ∙ ap fn (omega arith))
      | inr (x, e) ↦ elim (Bool-cases (sleeps i)) [
        | inl q ↦
            rw (e, q, rounds)
              (rounds-last (suc i) ds ∙ ap fn (omega (arith, rounds-length (suc i) ds)))
        | inr q ↦ rw (e, q, rounds) (sym e ∙ ap fn (omega arith))
      ]
    ]

    Succeeds-rounds :
        (i : ℕ) (ds : List ℕ) → Succeeds i (length ds) → (rounds fn sleeps total i ds).result ≡ none
    unfolding rounds
    Succeeds-rounds i [] (k, a, b, e, s) = ap fn (omega (arith, a, b)) ∙ e
    Succeeds-rounds i (d ∷ ds) (k, a, b, e, s) = elim (Option-cases (fn i)) [
      | inl z ↦ rw (z, rounds) refl
      | inr (x, z) ↦ elim (at_or_after i k a) [
        | inl q ↦ ground (arith, rw q at z, e)
        | inr q ↦
            rw (z, s i (omega arith) q, rounds)
              (Succeeds-rounds (suc i) ds
                (k, omega arith, omega arith, e, λ j c l. s j (omega arith) l))
      ]
    ]

    rounds-Succeeds :
        (i : ℕ) (ds : List ℕ) → (rounds fn sleeps total i ds).result ≡ none → Succeeds i (length ds)
    unfolding rounds
    rounds-Succeeds i [] h = (i, omega arith, omega arith, h, λ j a b. absurd (omega arith))
    rounds-Succeeds i (d ∷ ds) h = elim (Option-cases (fn i)) [
      | inl e ↦ (i, omega arith, omega arith, e, λ j a b. absurd (omega arith))
      | inr (x, e) ↦ elim (Bool-cases (sleeps i)) [
        | inl q ↦
            (let (k, a, b, z, s) = rounds-Succeeds (suc i) ds (rw (e, q, rounds) at h) in
              (
                k,
                omega arith,
                omega arith,
                z,
                λ j c l. elim (at_or_after i j c) [ inl t ↦ rw (sym t) q | inr t ↦ s j t l ],
              ))
        | inr q ↦ ground (arith, e, q, h)
      ]
    ]

-- A retried call is tried at least once and at most once more than there are delays. It returns what
-- its last attempt returned. It succeeds exactly when one of those attempts does before which no
-- sleep was cancelled.
pub retry-Ends :
    (fn : ℕ → Option Text) (sleeps : ℕ → Bool) (delays : List ℕ)
    → (0 < length (retry fn sleeps delays).attempts)
      × (length (retry fn sleeps delays).attempts ≤ length delays + 1)
      × ((retry fn sleeps delays).result ≡ fn (length (retry fn sleeps delays).attempts - 1))
      × (((retry fn sleeps delays).result ≡ none) ↔ Succeeds fn sleeps 0 (length delays))
unfolding retry
retry-Ends fn sleeps delays =
    let (a, b) = rounds-length fn sleeps (length delays + 1) 0 delays in
    (
      a,
      b,
      rounds-last fn sleeps (length delays + 1) 0 delays ∙ ap fn (omega arith),
      (
        rounds-Succeeds fn sleeps (length delays + 1) 0 delays,
        Succeeds-rounds fn sleeps (length delays + 1) 0 delays,
      ),
    )
