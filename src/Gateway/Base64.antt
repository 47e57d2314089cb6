-- ===== src/Gateway/Base64.antt =====
-- base64.RawURLEncoding.EncodeToString: four characters for three bytes, no padding.
use interview_labs.Prelude.{
  ℕ, ◌+◌, ◌-◌, ◌*◌, ◌/◌, ◌%◌, Text, codes, [], ◌∷◌, ◌≡◌, ◌≢◌, refl, arith, ltb, ◌==◌, if◌then◌else◌,
  All,
}

-- The alphabet of RFC 4648, section 5.
unfoldable pub letter : ℕ → ℕ
letter x =
    if ltb x 26
    then b'A' + x
    else if ltb x 52
    then b'a' + (x - 26)
    else if ltb x 62
    then b'0' + (x - 52)
    else if x == 62
    then b'-'
    else b'_'

unfoldable pub raw_url_encode : Text → Text
raw_url_encode [] = []
raw_url_encode (a ∷ []) = letter (a / 4) ∷ letter (a % 4 * 16) ∷ []
raw_url_encode (a ∷ b ∷ []) =
    letter (a / 4) ∷ letter (a % 4 * 16 + b / 16) ∷ letter (b % 16 * 4) ∷ []
raw_url_encode (a ∷ b ∷ c ∷ s) =
    letter (a / 4)
    ∷ letter (a % 4 * 16 + b / 16)
    ∷ letter (b % 16 * 4 + c / 64)
    ∷ letter (c % 64)
    ∷ raw_url_encode s

letter-ne-dot : (x : ℕ) → letter x ≢ b'.'
unfolding letter
letter-ne-dot x = ground arith

-- No dot, the separator of a token.
pub raw_url_encode_no_dot : (s : Text) → All (λ c. c ≢ b'.') (raw_url_encode s)
unfolding raw_url_encode
raw_url_encode_no_dot [] = tt
raw_url_encode_no_dot (a ∷ []) = (letter-ne-dot _, (letter-ne-dot _, tt))
raw_url_encode_no_dot (a ∷ b ∷ []) = (letter-ne-dot _, (letter-ne-dot _, (letter-ne-dot _, tt)))
raw_url_encode_no_dot (a ∷ b ∷ c ∷ s) = (
  letter-ne-dot _,
  (letter-ne-dot _, (letter-ne-dot _, (letter-ne-dot _, raw_url_encode_no_dot s))),
)

pub raw_url_encode-ne-nil : (s : Text) → s ≢ [] → raw_url_encode s ≢ []
unfolding raw_url_encode
raw_url_encode-ne-nil [] h = absurd (h refl)
raw_url_encode-ne-nil (a ∷ []) h = λ e. cc
raw_url_encode-ne-nil (a ∷ b ∷ []) h = λ e. cc
raw_url_encode-ne-nil (a ∷ b ∷ c ∷ s) h = λ e. cc

rfc_example : raw_url_encode (20 ∷ 251 ∷ 156 ∷ 3 ∷ 217 ∷ []) ≡ codes "FPucA9k"
unfolding raw_url_encode letter
rfc_example = refl
