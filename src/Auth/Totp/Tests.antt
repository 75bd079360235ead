-- ===== src/Auth/Totp/Tests.antt =====
-- Secrets and codes on concrete bytes.
use live_ops_backend.Prelude.{ℕ, ◌≡◌, refl, List, [], ◌∷◌, ok, true, arith, ◌<◌, All}
use live_ops_backend.Guards.{codes}
use live_ops_backend.Auth.Totp.{Crypto, base32_decode, generate_totp_token, verify_totp_token}
use live_ops_backend.Auth.Totp.Accepted.{verify_totp_token-generate_totp_token}
use live_ops_backend.Auth.Totp.Encode.{base32_encode}
use live_ops_backend.Auth.Totp.Encode.RoundTrip.{base32_decode-base32_encode}

-- the code is the last bytes of the message: the counter
abbrev crypto : Crypto
crypto = record {
  hmac = λ key message. 0 ∷ 0 ∷ 0 ∷ 1 ∷ message;
  utf8 = codes;
  to_upper_case = λ t. t;
}

abbrev foob : List ℕ
foob = 102 ∷ 111 ∷ 111 ∷ 98 ∷ []

abbrev foob_small : All (λ b. b < 256) foob
foob_small = (omega arith, (omega arith, (omega arith, (omega arith, tt))))

-- RFC 4648 pads this one: the encoder leaves the padding out
encodes_foob : base32_encode foob ≡ codes "MZXW6YQ"
unfolding base32_encode
encodes_foob = refl

base32_decode-base32_encode_example : base32_decode crypto "MZXW6YQ" ≡ ok foob
unfolding base32_encode
base32_decode-base32_encode_example =
    base32_decode-base32_encode crypto (λ s h. refl) foob foob_small "MZXW6YQ" refl

verify_totp_token-generate_totp_token_example :
    verify_totp_token crypto 60000 "065536" "MZXW6YQ" ≡ ok true
unfolding base32_encode generate_totp_token
verify_totp_token-generate_totp_token_example =
    verify_totp_token-generate_totp_token crypto (λ s h. refl) foob foob_small "MZXW6YQ" "065536"
      refl 60000 89000 (omega arith) (omega arith) (omega arith) refl
