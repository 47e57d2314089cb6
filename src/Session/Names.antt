-- ===== src/Session/Names.antt =====
-- The names that Archive tries.
use interview_labs.Prelude.{
  ℕ, zero, suc, ◌+◌, ◌^◌, ◌<◌, ◌≤◌, ◌==◌, Text, false, none, some, [], ◌∷◌, ◌++◌, ◌≡◌, ◌≢◌, ◌⊎◌,
  inl, inr, refl, ap, arith, text_eq, text_eq_ne, Bool-cases, Option-cases, if◌then◌else◌, length,
  length-append, leb,
}
use interview_labs.Prelude.Int.{pos}
use interview_labs.Prelude.Assoc.{Assoc, lookup, remove, lookup-remove}
use interview_labs.Decimal.{format_int, parse_int, parse_int-format_int}
use interview_labs.Session.Store.{SessionDir, exists, archive_name}

-- The k-th name for a slug, counted from 1.
pub candidate : Text → ℕ → Text
candidate slug k = if leb k 1 then slug else slug ++ b'-' ∷ format_int (pos k)

format_int-injective :
    (a b : ℕ) → a < 2 ^ 63 → b < 2 ^ 63 → format_int (pos a) ≡ format_int (pos b) → a ≡ b
format_int-injective a b ha hb e =
    ground (arith, parse_int-format_int (pos a) ha, parse_int-format_int (pos b) hb, ap parse_int e)

append-injective : (s t u : Text) → s ++ t ≡ s ++ u → t ≡ u
append-injective [] t u e = e
append-injective (c ∷ s) t u e = append-injective s t u (ground arith)

longer : (s t : Text) (c : ℕ) → s ≢ s ++ c ∷ t
longer s t c e = omega (arith, length-append s (c ∷ t), ap length e)

dash-injective : (s t : Text) → b'-' ∷ s ≡ b'-' ∷ t → s ≡ t
dash-injective s t e = ground arith

not_first : (b : ℕ) → 1 < b → leb b 1 ≡ false
not_first b h = ground arith

candidate-ne :
    (slug : Text) (a b : ℕ) → 1 ≤ a → a < b → b < 2 ^ 63 → candidate slug a ≢ candidate slug b
unfolding candidate
candidate-ne slug a b ha hab hb e = elim (Bool-cases (leb a 1)) [
  | inl q ↦
      longer slug (format_int (pos b)) b'-' (rw (q, not_first b (omega (arith, ha, hab))) at e)
  | inr q ↦
      (let same = format_int-injective a b (omega (arith, hab, hb)) hb (
          dash-injective _ _
            (append-injective slug _ _ (rw (q, not_first b (omega (arith, ha, hab))) at e))) in
        omega (arith, same, hab))
]

module _ {V : Type 0} where
  length-remove : (k : Text) (m : Assoc V) → length (remove k m) ≤ length m
  unfolding remove
  length-remove k [] = omega arith
  length-remove k ((j, v) ∷ m) = ground (arith, length-remove k m)

  removed : (k : Text) (m : Assoc V) → lookup k m ≢ none → length (remove k m) < length m
  unfolding lookup remove
  removed k [] h = elim (h refl) [ ]
  removed k ((j, v) ∷ m) h = elim (Bool-cases (text_eq j k)) [
    | inl e ↦ rw (e, if◌then◌else◌) (omega (arith, length-remove k m))
    | inr e ↦ rw (e, if◌then◌else◌) (omega (arith, removed k m (rw (e, if◌then◌else◌) at h)))
  ]

  still :
      (slug : Text) (i k : ℕ) (m : Assoc V)
      → candidate slug i ≢ candidate slug k
      → lookup (candidate slug k) m ≢ none
      → lookup (candidate slug k) (remove (candidate slug i) m) ≢ none
  still slug i k m d h = rw (lookup-remove, text_eq_ne (candidate slug i) (candidate slug k) d) h

  -- Names that are different and all taken are at most as many as the entries.
  pigeonhole :
      (slug : Text) (n i : ℕ) (m : Assoc V)
      → 1 ≤ i
      → i + n < 2 ^ 63
      → ((k : ℕ) → i ≤ k → k < i + n → lookup (candidate slug k) m ≢ none)
      → n ≤ length m
  pigeonhole slug zero i m hi hn h = omega arith
  pigeonhole slug (suc n) i m hi hn h = omega (
    arith,
    removed (candidate slug i) m (h i (omega arith) (omega arith)),
    pigeonhole slug n (suc i) (remove (candidate slug i) m) (omega arith) (omega (arith, hn))
        (λ k a b.
          still slug i k m (candidate-ne slug i k hi a (omega (arith, b, hn)))
            (h k (omega (arith, a)) (omega (arith, b)))),
  )

module _ (slug : Text) (m : Assoc SessionDir) where
  AllTaken : ℕ → ℕ → Type 0
  AllTaken k n = (j : ℕ) → k ≤ j → j < k + n → lookup (candidate slug j) m ≢ none

  first_taken : (k : ℕ) → lookup (candidate slug k) m ≢ none → AllTaken k 1
  unfolding AllTaken
  first_taken k h j a b = (let q : j ≡ k = omega (arith, a, b) in rw q h)

  more_taken :
      (k n : ℕ) → lookup (candidate slug k) m ≢ none → AllTaken (suc k) n → AllTaken k (suc n)
  unfolding AllTaken
  more_taken k n h hs j a b = elim (Bool-cases (j == k)) [
    | inl e ↦ (let q : j ≡ k = ground (arith, e) in rw q h)
    | inr e ↦ hs j (ground (arith, e, a)) (omega (arith, b))
  ]

  next_candidate :
      (k : ℕ) → 1 ≤ k → slug ++ b'-' ∷ format_int (pos (suc k)) ≡ candidate slug (suc k)
  unfolding candidate
  next_candidate k h = rw (not_first (suc k) (omega arith)) refl

  stops : (f i : ℕ) (dst : Text) → lookup dst m ≡ none → archive_name (suc f) slug i dst m ≡ dst
  unfolding archive_name
  stops f i dst e = rw (archive_name, exists, e) refl

  goes_on :
      (f i : ℕ) (dst : Text) (d : SessionDir)
      → lookup dst m ≡ some d
      → archive_name (suc f) slug i dst m
        ≡ archive_name f slug (suc i) (slug ++ b'-' ∷ format_int (pos i)) m
  unfolding archive_name
  goes_on f i dst d e = rw (archive_name, exists, e) refl

  taken : (name : Text) (d : SessionDir) → lookup name m ≡ some d → lookup name m ≢ none
  taken name d e q = ground arith

  archive_name-or :
      (f k : ℕ)
      → 1 ≤ k
      → (lookup (archive_name f slug (suc k) (candidate slug k) m) m ≡ none) ⊎ AllTaken k (suc f)
  archive_name-or zero k h = elim (Option-cases (lookup (candidate slug k) m)) [
    | inl e ↦ inl (unfold archive_name in e)
    | inr (d, e) ↦ inr (first_taken k (taken _ d e))
  ]
  archive_name-or (suc f) k h = elim (Option-cases (lookup (candidate slug k) m)) [
    | inl e ↦ inl (rw (stops f (suc k) (candidate slug k) e) e)
    | inr (d, e) ↦ elim (archive_name-or f (suc k) (omega arith)) [
      | inl q ↦ inl (rw (goes_on f (suc k) (candidate slug k) d e, next_candidate k h) q)
      | inr q ↦ inr (more_taken k (suc f) (taken _ d e) q)
    ]
  ]

  too_many : suc (length m) ≤ length m → ⊥
  too_many h = omega (arith, h)

  -- The search never runs out of fuel: the name that it returns is not taken.
  pub archive_name-is_free :
      length m < 2 ^ 62 → lookup (archive_name (length m) slug 2 slug m) m ≡ none
  unfolding AllTaken
  archive_name-is_free h = elim (archive_name-or (length m) 1 (omega arith)) [
    | inl e ↦ (unfold candidate in e)
    | inr e ↦
        elim (too_many
          (pigeonhole slug (suc (length m)) 1 m (omega arith) (omega (arith, h)) e)) [ ]
  ]
