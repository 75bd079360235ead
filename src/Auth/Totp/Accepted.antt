-- ===== src/Auth/Totp/Accepted.antt =====
-- Codes of a decoded secret, made within thirty seconds of the check.
use live_ops_backend.Prelude.{
  ℕ, ◌+◌, ◌-◌, ◌/◌, ◌%◌, ◌^◌, ◌≤◌, ◌<◌, String, ◌≡◌, refl, subst, true, List, [], ◌∷◌, ◌++◌, ok,
  arith, All, In, here, there, all, Bool-cases, inl, inr, leb, eqb,
}
use live_ops_backend.Guards.{codes, same_codes, same_codes_refl}
use live_ops_backend.Auth.Totp.{
  Crypto, base32_decode, generate_totp_token, verify_at, verify_totp_token, windows, token_of,
  truncated, big_endian, six_digits,
}
use live_ops_backend.Auth.Totp.Encode.{base32_encode}
use live_ops_backend.Auth.Totp.Encode.RoundTrip.{base32_decode-base32_encode}
use live_ops_backend.Auth.Totp.Encode.Alphabet.{is_base32}

module _ (crypto : Crypto) (key : List ℕ) where
  -- the code of a counter
  abbrev counter_code : ℕ → List ℕ
  counter_code c =
      six_digits
        (truncated (crypto.hmac key (big_endian (c / 2 ^ 32) ++ big_endian (c % 2 ^ 32))) % 1000000)

  verify_at-counter_code :
      (secret : String) (c : ℕ) (times : List ℕ) (t : ℕ)
      → base32_decode crypto secret ≡ ok key
      → In t times
      → t / 30000 ≡ c
      → verify_at crypto (counter_code c) secret times ≡ ok true
  unfolding verify_at generate_totp_token
  verify_at-counter_code secret c [] t decoded m e = elim m [ ]
  verify_at-counter_code secret c (_ ∷ times) t decoded here e =
      rw (decoded, e, same_codes_refl (counter_code c)) refl
  verify_at-counter_code secret c (s ∷ times) t decoded (there m) e =
      elim (Bool-cases (same_codes (counter_code c) (counter_code (s / 30000)))) [
        | inl same ↦ rw (decoded, same) refl
        | inr differs ↦ rw (decoded, differs) (verify_at-counter_code secret c times t decoded m e)
      ]

window_of :
    (crypto : Crypto) (now time : ℕ)
    → 30000 ≤ now
    → now ≤ time + 30000
    → time ≤ now + 30000
    → (t : ℕ) × In t (windows crypto now) × (t / 30000 ≡ time / 30000)
window_of crypto now time late low high = elim (Bool-cases (eqb (now / 30000) (time / 30000))) [
  | inl same ↦ (now, there here, ground (arith, same))
  | inr other ↦ elim (Bool-cases (leb (now / 30000) (time / 30000))) [
    | inl after ↦
        let after_le : now / 30000 < time / 30000 = ground (arith, after, other) in
        (now + 30000, there (there here), omega (arith, after_le))
    | inr before ↦
        let before_le : time / 30000 < now / 30000 = ground (arith, before) in
        (now - 30000, here, omega (arith, before_le))
  ]
]

-- A secret that encodes a key, and a token that is its code for a time at most thirty seconds before
-- or after now: the token is accepted.
pub verify_totp_token-generate_totp_token :
    (crypto : Crypto)
    → ((s : String) → all is_base32 (codes s) ≡ true → crypto.to_upper_case s ≡ s)
    → (key : List ℕ) → All (λ b. b < 256) key
    → (secret token : String) → codes secret ≡ base32_encode key
    → (now time : ℕ) → 30000 ≤ now
    → now ≤ time + 30000
    → time ≤ now + 30000
    → generate_totp_token crypto secret time ≡ ok (crypto.utf8 token)
    → verify_totp_token crypto now token secret ≡ ok true
unfolding verify_totp_token generate_totp_token
verify_totp_token-generate_totp_token crypto keeps key small secret token same now time late low
      high made =
    let decoded = base32_decode-base32_encode crypto keeps key small secret same in
    let (t, m, e) = window_of crypto now time late low high in
    let coded : token_of crypto (time / 30000) (ok key) ≡ ok (crypto.utf8 token) =
      subst (λ o. token_of crypto (time / 30000) o ≡ ok (crypto.utf8 token)) decoded made in
    let same_code : counter_code crypto key (time / 30000) ≡ crypto.utf8 token = cc coded in
    subst (λ c. verify_at crypto c secret (windows crypto now) ≡ ok true) same_code
      (verify_at-counter_code crypto key secret (time / 30000) (windows crypto now) t decoded m e)
