-- ===== src/Gateway/Token.antt =====
-- docker/images/gateway/token.go: the cookie is the expiry, a dot, and a MAC of the expiry. HMAC-SHA256 is not
-- modelled: `Mac` is what the code relies on.
pub mod Laws
pub mod Tests
use interview_labs.Prelude.{
  ℕ, Text, length, Bool, true, false, Option, none, some, [], ◌∷◌, ◌++◌, ◌≡◌, text_eq, ◌==◌,
  if◌then◌else◌, ◌&&◌, not, is_empty,
}
use interview_labs.Prelude.Int.{ℤ, ltb_ℤ}
use interview_labs.Decimal.{format_int, parse_int}
use interview_labs.Gateway.Base64.{raw_url_encode}

-- hmac.New(sha256.New, secret), Write(message), Sum(nil): 32 bytes.
pub record Mac : Type 0 where
  pub sum : Text → Text → Text
  pub length-sum : (secret message : Text) → length (sum secret message) ≡ 32

abbrev cons_part : ℕ → Option (Text × Text) → Option (Text × Text)
cons_part c none = none
cons_part c (some (a, b)) = some (c ∷ a, b)

-- The two sides of the last `d`; `none` is LastIndexByte's -1.
unfoldable pub split_last : ℕ → Text → Option (Text × Text)
split_last d [] = none
split_last d (c ∷ s) =
    let later = split_last d s in
    elim later [ some p ↦ some (c ∷ p.0, p.1) | none ↦ if c == d then some ([], s) else none ]

module _ (m : Mac) where
  unfoldable pub sign : Text → Text → Text
  sign secret exp_str = raw_url_encode (m.sum secret exp_str)

  unfoldable pub sign_token : Text → ℤ → Text
  unfolding sign
  sign_token secret exp = let exp_str = format_int exp in exp_str ++ b'.' ∷ sign secret exp_str

  abbrev pub is_fresh : Option ℤ → ℤ → Bool
  is_fresh none now = false
  is_fresh (some exp) now = ltb_ℤ now exp

  -- The checks after the dot was found inside the value, `now` in seconds.
  unfoldable pub check_parts : Text → Text → Text → ℤ → Bool
  unfolding sign
  check_parts secret exp_str sig now =
      text_eq sig (sign secret exp_str) && is_fresh (parse_int exp_str) now

  unfoldable pub valid_token : Text → Text → ℤ → Bool
  unfolding check_parts
  valid_token secret value now = elim (split_last b'.' value) [
    | none ↦ false
    | some p ↦
        if is_empty p.0
        then false
        else if is_empty p.1
        then false
        else check_parts secret p.0 p.1 now
  ]
