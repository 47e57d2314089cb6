-- ===== src/Decimal.antt =====
-- strconv.FormatInt and strconv.ParseInt in base 10, as the program uses them.
use native.Mathlib.Nat.{pow-suc}
use interview_labs.Prelude.{
  ℕ, zero, suc, ◌+◌, ◌-◌, ◌*◌, ◌/◌, ◌%◌, ◌^◌, ◌≤◌, ◌<◌, Text, codes, Bool, true, false, ◌||◌,
  Option, none, some, [], ◌∷◌, ◌≡◌, ◌≢◌, refl, arith, ltb, ◌==◌, if◌then◌else◌, Bool-cases, inl,
  inr, ◌∙◌,
}
use interview_labs.Prelude.Int.{ℤ, pos, negsuc}

abbrev pub max_u64 : ℕ
max_u64 = 2 ^ 64 - 1

-- The digits of `n` in front of `out`; 20 rounds are enough for every uint64.
unfoldable pub digits : ℕ → ℕ → Text → Text
digits zero n out = out
digits (suc f) n out =
    let rest = digits f (n / 10) ((b'0' + n % 10) ∷ out) in if n == 0 then out else rest

format_uint : ℕ → Text
format_uint n = if n == 0 then b'0' ∷ [] else digits 20 n []

-- strconv.FormatInt(n, 10)
unfoldable pub format_int : ℤ → Text
unfolding format_uint
format_int (pos n) = format_uint n
format_int (negsuc n) = b'-' ∷ format_uint (suc n)

-- The loop of ParseUint: digits only, and no overflow.
scan : Text → ℕ → Option ℕ
scan [] n = some n
scan (c ∷ s) n =
    let m = n * 10 + (c - b'0') in
    if ltb c b'0' || ltb b'9' c then none else if ltb max_u64 m then none else scan s m

parse_uint : Text → Option ℕ
unfolding scan
parse_uint [] = none
parse_uint (c ∷ s) = scan (c ∷ s) 0

abbrev in_range : Bool → Option ℕ → Option ℤ
in_range neg none = none
in_range false (some n) = if ltb n (2 ^ 63) then some (pos n) else none
in_range true (some zero) = some (pos 0)
in_range true (some (suc n)) = if ltb n (2 ^ 63) then some (negsuc n) else none

-- strconv.ParseInt(s, 10, 64)
unfoldable pub parse_int : Text → Option ℤ
unfolding parse_uint
parse_int [] = none
parse_int (c ∷ s) =
    if c == b'-'
    then in_range true (parse_uint s)
    else if c == b'+'
    then in_range false (parse_uint s)
    else in_range false (parse_uint (c ∷ s))

-- The value of an int64.
abbrev pub IsInt64 : ℤ → Type 0
IsInt64 (pos n) = n < 2 ^ 63
IsInt64 (negsuc n) = n < 2 ^ 63

scan_last : (n : ℕ) (out : Text) → n ≤ max_u64 → scan ((b'0' + n % 10) ∷ out) (n / 10) ≡ scan out n
unfolding scan
scan_last n out h = ground arith

scan-digits :
    (f n : ℕ) (out : Text) → n < 10 ^ f → n ≤ max_u64 → scan (digits f n out) 0 ≡ scan out n
unfolding digits
scan-digits zero n out h fits = let e : n ≡ 0 = omega arith in rw e refl
scan-digits (suc f) n out h fits =
    ground
      (arith, pow-suc 10 f, scan-digits f (n / 10) ((b'0' + n % 10) ∷ out), scan_last n out fits)

-- A positive number begins with a digit.
abbrev Begins : Text → Type 0
Begins [] = ⊥
Begins (c ∷ s) = (b'0' ≤ c) × (c ≤ b'9')

digits-Begins :
    (f n : ℕ) (out : Text) → (n ≡ 0 → Begins out) → (f ≡ 0 → Begins out) → Begins (digits f n out)
unfolding digits
digits-Begins zero n out h h' = h' refl
digits-Begins (suc f) n out h h' = elim (Bool-cases (n == 0)) [
  | inl e ↦ rw e (h (ground arith))
  | inr e ↦ rw e (digits-Begins f (n / 10) _ (λ _. omega arith) (λ _. omega arith))
]

format_uint-Begins : (n : ℕ) → Begins (format_uint n)
unfolding format_uint
format_uint-Begins n = elim (Bool-cases (n == 0)) [
  | inl e ↦ rw e (omega arith)
  | inr e ↦ rw e (digits-Begins 20 n [] (λ z. absurd (ground arith)) (λ z. absurd (omega arith)))
]

parse_uint-scan : (s : Text) → Begins s → parse_uint s ≡ scan s 0
unfolding parse_uint
parse_uint-scan [] h = elim h [ ]
parse_uint-scan (c ∷ s) h = refl

scan-format_uint : (n : ℕ) → n ≤ max_u64 → scan (format_uint n) 0 ≡ some n
unfolding format_uint
scan-format_uint n h = elim (Bool-cases (n == 0)) [
  | inl e ↦ rw e (unfold scan in ground arith)
  | inr e ↦ rw e (scan-digits 20 n [] (omega arith) h ∙ (unfold scan in refl))
]

-- Text that begins with a digit has no sign.
parse_unsigned : (s : Text) → Begins s → parse_int s ≡ in_range false (scan s 0)
unfolding parse_int
parse_unsigned [] h = elim h [ ]
parse_unsigned (c ∷ s) h = ground arith

-- Every int64 is read back from its decimal print.
pub parse_int-format_int : (n : ℤ) → IsInt64 n → parse_int (format_int n) ≡ some n
parse_int-format_int (pos n) h =
    unfold format_int in
    rw (parse_unsigned (format_uint n) (format_uint-Begins n), scan-format_uint n (omega arith))
      (ground arith)
parse_int-format_int (negsuc n) h =
    unfold format_int in
    unfold parse_int in
    rw
      (
        parse_uint-scan (format_uint (suc n)) (format_uint-Begins (suc n)),
        scan-format_uint (suc n) (omega arith),
      )
      (ground arith)

not-Begins-nil : (s : Text) → Begins s → s ≢ []
not-Begins-nil [] h = elim h [ ]
not-Begins-nil (c ∷ s) h = λ e. cc

pub format_int-ne-nil : (n : ℤ) → format_int n ≢ []
unfolding format_int
format_int-ne-nil (pos n) = not-Begins-nil (format_uint n) (format_uint-Begins n)
format_int-ne-nil (negsuc n) = λ e. cc

refused_texts :
    (parse_int (codes "") ≡ none)
    × (parse_int (codes "-") ≡ none)
    × (parse_int (codes "1_0") ≡ none)
    × (parse_int (codes "9223372036854775808") ≡ none)
    × (parse_int (codes "-9223372036854775808") ≡ some (negsuc 9223372036854775807))
unfolding parse_int
refused_texts = (refl, refl, refl, refl, refl)
