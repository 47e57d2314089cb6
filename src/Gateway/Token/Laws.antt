-- ===== src/Gateway/Token/Laws.antt =====
-- What a token is good for.
use interview_labs.Prelude.{
  ℕ, Text, length, inl, inr, true, Option-cases, none, some, [], ◌∷◌, ◌++◌, ◌≡◌, ◌≢◌, refl, arith,
  text_eq_iff, text_eq_refl, All, is_empty_iff, ap,
}
use interview_labs.Prelude.Int.{ℤ, ◌<ℤ◌, ltb_ℤ}
use interview_labs.Decimal.{format_int, parse_int, IsInt64, parse_int-format_int, format_int-ne-nil}
use interview_labs.Gateway.Base64.{raw_url_encode_no_dot, raw_url_encode-ne-nil}
use interview_labs.Gateway.Token.{Mac, split_last, sign, sign_token, valid_token}

split_last-none : (d : ℕ) (b : Text) → All (λ c. c ≢ d) b → split_last d b ≡ none
unfolding split_last
split_last-none d [] h = refl
split_last-none d (c ∷ b) (hc, hb) = ground (arith, split_last-none d b hb)

-- Behind the last `d` there is none.
split_last-append :
    (d : ℕ) (a b : Text) → All (λ c. c ≢ d) b → split_last d (a ++ d ∷ b) ≡ some (a, b)
unfolding split_last
split_last-append d [] b h = ground (arith, split_last-none d b h)
split_last-append d (c ∷ a) b h = ground (arith, split_last-append d a b h)

split_last_sound : (d : ℕ) (s a b : Text) → split_last d s ≡ some (a, b) → s ≡ a ++ d ∷ b
unfolding split_last
split_last_sound d [] a b h = cc
split_last_sound d (c ∷ s) a b h = elim (Option-cases (split_last d s)) [
  | inl e ↦ ground arith
  | inr (p, e) ↦ ground (arith, split_last_sound d s p.0 p.1)
]

module _ (m : Mac) where
  -- A signature is 32 bytes encoded: not empty, and with no dot.
  sign-ne-nil : (secret exp_str : Text) → sign m secret exp_str ≢ []
  unfolding sign
  sign-ne-nil secret exp_str =
      raw_url_encode-ne-nil (m.sum secret exp_str)
        (λ e. absurd (omega (arith, ap length e, m.length-sum secret exp_str)))

  sign_no_dot : (secret exp_str : Text) → All (λ c. c ≢ b'.') (sign m secret exp_str)
  unfolding sign
  sign_no_dot secret exp_str = raw_url_encode_no_dot (m.sum secret exp_str)

  -- A token that the gateway signed is accepted exactly until its expiry.
  pub valid_token-sign_token :
      (secret : Text) (exp now : ℤ)
      → IsInt64 exp
      → valid_token m secret (sign_token m secret exp) now ≡ ltb_ℤ now exp
  unfolding valid_token sign_token
  valid_token-sign_token secret exp now h = ground (
    arith,
    split_last-append b'.' (format_int exp) (sign m secret (format_int exp))
        (sign_no_dot secret (format_int exp)),
    is_empty_iff (format_int exp),
    format_int-ne-nil exp,
    is_empty_iff (sign m secret (format_int exp)),
    sign-ne-nil secret (format_int exp),
    text_eq_refl (sign m secret (format_int exp)),
    parse_int-format_int exp h,
  )

  -- What an accepted value is made of.
  pub record IsGenuine (secret value : Text) (now : ℤ) : Type 0 where
    pub exp_str : Text
    pub exp : ℤ
    pub split : value ≡ exp_str ++ b'.' ∷ sign m secret exp_str
    pub parsed : parse_int exp_str ≡ some exp
    pub fresh : now <ℤ exp

  -- The gateway accepts no value but a MAC under its own secret behind an expiry in the future.
  pub valid_token-IsGenuine :
      (secret value : Text) (now : ℤ)
      → valid_token m secret value now ≡ true
      → IsGenuine secret value now
  unfolding valid_token
  valid_token-IsGenuine secret value now h = elim (Option-cases (split_last b'.' value)) [
    | inl e ↦ cc
    | inr (p, e) ↦ elim (Option-cases (parse_int p.0)) [
      | inl e' ↦ absurd (ground arith)
      | inr (exp, e') ↦ record {
        exp_str = p.0;
        exp = exp;
        split =
            ground
              (arith, split_last_sound b'.' value p.0 p.1, text_eq_iff p.1 (sign m secret p.0));
        parsed = e';
        fresh = ground arith;
      }
    ]
  ]
