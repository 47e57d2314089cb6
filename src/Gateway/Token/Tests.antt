-- ===== src/Gateway/Token/Tests.antt =====
-- Tokens at concrete inputs, under a MAC that is easy to compute.
use interview_labs.Prelude.{Text, codes, length, true, [], ◌∷◌, ◌≡◌, refl, arith, text_eq}
use interview_labs.Prelude.Int.{pos, ltb_ℤ}
use interview_labs.Decimal.{format_int, digits, parse_int}
use interview_labs.Gateway.Base64.{raw_url_encode, letter}
use interview_labs.Gateway.Token.{Mac, split_last, sign_token, valid_token}
use interview_labs.Gateway.Token.Laws.{IsGenuine, valid_token-sign_token, valid_token-IsGenuine}

abbrev pub toy_bytes : Text
toy_bytes =
    1 ∷ 2 ∷ 3 ∷ 4 ∷ 5 ∷ 6 ∷ 7 ∷ 8 ∷ 9 ∷ 10 ∷ 11 ∷ 12 ∷ 13 ∷ 14 ∷ 15 ∷ 16 ∷ 17 ∷ 18 ∷ 19 ∷ 20 ∷ 21
    ∷ 22 ∷ 23 ∷ 24 ∷ 25 ∷ 26 ∷ 27 ∷ 28 ∷ 29 ∷ 30 ∷ 31 ∷ []

abbrev pub toy_sum : Text → Text → Text
toy_sum [] message = 0 ∷ toy_bytes
toy_sum (c ∷ secret) message = c ∷ toy_bytes

pub length-toy_sum : (secret message : Text) → length (toy_sum secret message) ≡ 32
length-toy_sum [] message = refl
length-toy_sum (c ∷ secret) message = refl

abbrev pub toy_mac : Mac
toy_mac = record { sum = toy_sum; length-sum = length-toy_sum }

abbrev key : Text
key = codes "k"

valid_token-sign_token_example :
    valid_token toy_mac key (sign_token toy_mac key (pos 1700000000)) (pos 1699999999)
    ≡ ltb_ℤ (pos 1699999999) (pos 1700000000)
valid_token-sign_token_example =
    valid_token-sign_token toy_mac key (pos 1700000000) (pos 1699999999) (omega arith)

accepted : valid_token toy_mac key (sign_token toy_mac key (pos 70)) (pos 69) ≡ true
unfolding valid_token sign_token format_int digits parse_int raw_url_encode letter split_last
    text_eq
accepted = refl

valid_token-IsGenuine_example : IsGenuine toy_mac key (sign_token toy_mac key (pos 70)) (pos 69)
valid_token-IsGenuine_example =
    valid_token-IsGenuine toy_mac key (sign_token toy_mac key (pos 70)) (pos 69) accepted
