-- ===== src/Auth/Totp/Encode/RoundTrip.antt =====
-- Decoding what was encoded.
use live_ops_backend.Prelude.{
  ℕ, ◌+◌, ◌-◌, ◌*◌, ◌/◌, ◌%◌, ◌^◌, ◌<◌, ◌≡◌, refl, true, all, String, List, [], ◌∷◌, ok,
  if◌then◌else◌, leb, arith, All, ap,
}
use live_ops_backend.Auth.Totp.{decode_from, with_byte, base32_decode, Crypto}
use live_ops_backend.Guards.{codes}
use live_ops_backend.Auth.Totp.Encode.Alphabet.{
  is_base32, char_at-found, encode_from-all, strip_padding-kept,
}
use live_ops_backend.Auth.Totp.Encode.{char_at, encode_from, write_groups, rest_bits, base32_encode}

-- One character of the alphabet.
decode_from-char_at :
    (bits value i : ℕ) (cs : List ℕ)
    → i < 32
    → decode_from bits value (char_at i ∷ cs) ≡ (
        let v = (value * 32 + i) % 2 ^ 32 in
        let b = bits + 5 in
        with_byte
          (leb 8 b)
          (v / 2 ^ (b - 8) % 256)
          (decode_from (if leb 8 b then b - 8 else b) v cs))
unfolding decode_from
decode_from-char_at bits value i cs below = rw (decode_from, (char_at-found i below).0) refl

-- The encoder has `eb` bits of the byte p that it has not written, and the decoder `db` bits of
-- what was written that make no byte yet: together they are p.
abbrev Resumes : ℕ → ℕ → List ℕ → Type 0
Resumes eb db bytes =
    (ev dv p : ℕ)
    → p < 256
    → dv % 2 ^ db ≡ p / 2 ^ eb
    → ev % 2 ^ eb ≡ p % 2 ^ eb
    → decode_from db dv (encode_from eb ev bytes) ≡ ok (p ∷ bytes)

record Aligned (bytes : List ℕ) : Type 0 where
  from_start : (ev dv : ℕ) → decode_from 0 dv (encode_from 0 ev bytes) ≡ ok bytes
  after_one : Resumes 3 5 bytes
  after_two : Resumes 1 7 bytes
  after_three : Resumes 4 4 bytes
  after_four : Resumes 2 6 bytes

last_after_one : Resumes 3 5 []
unfolding encode_from decode_from
last_after_one ev dv p small high low =
    let c = ev * 2 ^ (5 - 3) % 32 in
    rw (decode_from-char_at 5 dv c [] (omega arith)) (ap (λ b. ok (b ∷ [])) (omega arith))

last_after_two : Resumes 1 7 []
unfolding encode_from decode_from
last_after_two ev dv p small high low =
    let c = ev * 2 ^ (5 - 1) % 32 in
    rw (decode_from-char_at 7 dv c [] (omega arith)) (ap (λ b. ok (b ∷ [])) (omega arith))

last_after_three : Resumes 4 4 []
unfolding encode_from decode_from
last_after_three ev dv p small high low =
    let c = ev * 2 ^ (5 - 4) % 32 in
    rw (decode_from-char_at 4 dv c [] (omega arith)) (ap (λ b. ok (b ∷ [])) (omega arith))

last_after_four : Resumes 2 6 []
unfolding encode_from decode_from
last_after_four ev dv p small high low =
    let c = ev * 2 ^ (5 - 2) % 32 in
    rw (decode_from-char_at 6 dv c [] (omega arith)) (ap (λ b. ok (b ∷ [])) (omega arith))

module _ (bytes : List ℕ) (next : Aligned bytes) (x : ℕ) (small : x < 256) where
  first_byte : (ev dv : ℕ) → decode_from 0 dv (encode_from 0 ev (x ∷ bytes)) ≡ ok (x ∷ bytes)
  unfolding encode_from write_groups rest_bits
  first_byte ev dv =
      let v = (ev * 256 + x) % 2 ^ 32 in
      let d = (dv * 32 + v / 2 ^ 3 % 32) % 2 ^ 32 in
      rw
        (
          decode_from-char_at 0 dv (v / 2 ^ 3 % 32) _ (omega arith),
          next.after_one v d x small (omega arith) (omega arith),
        )
        refl

  second_byte : Resumes 3 5 (x ∷ bytes)
  unfolding encode_from write_groups rest_bits
  second_byte ev dv p ps high low =
      let v = (ev * 256 + x) % 2 ^ 32 in
      let d = (dv * 32 + v / 2 ^ 6 % 32) % 2 ^ 32 in
      let e = (d * 32 + v / 2 ^ 1 % 32) % 2 ^ 32 in
      rw
        (
          decode_from-char_at 5 dv (v / 2 ^ 6 % 32) _ (omega arith),
          decode_from-char_at 2 d (v / 2 ^ 1 % 32) _ (omega arith),
          next.after_two v e x small (omega arith) (omega arith),
        )
        (ap (λ b. ok (b ∷ x ∷ bytes)) (omega arith))

  third_byte : Resumes 1 7 (x ∷ bytes)
  unfolding encode_from write_groups rest_bits
  third_byte ev dv p ps high low =
      let v = (ev * 256 + x) % 2 ^ 32 in
      let d = (dv * 32 + v / 2 ^ 4 % 32) % 2 ^ 32 in
      rw
        (
          decode_from-char_at 7 dv (v / 2 ^ 4 % 32) _ (omega arith),
          next.after_three v d x small (omega arith) (omega arith),
        )
        (ap (λ b. ok (b ∷ x ∷ bytes)) (omega arith))

  fourth_byte : Resumes 4 4 (x ∷ bytes)
  unfolding encode_from write_groups rest_bits
  fourth_byte ev dv p ps high low =
      let v = (ev * 256 + x) % 2 ^ 32 in
      let d = (dv * 32 + v / 2 ^ 7 % 32) % 2 ^ 32 in
      let e = (d * 32 + v / 2 ^ 2 % 32) % 2 ^ 32 in
      rw
        (
          decode_from-char_at 4 dv (v / 2 ^ 7 % 32) _ (omega arith),
          decode_from-char_at 1 d (v / 2 ^ 2 % 32) _ (omega arith),
          next.after_four v e x small (omega arith) (omega arith),
        )
        (ap (λ b. ok (b ∷ x ∷ bytes)) (omega arith))

  fifth_byte : Resumes 2 6 (x ∷ bytes)
  unfolding encode_from write_groups rest_bits
  fifth_byte ev dv p ps high low =
      let v = (ev * 256 + x) % 2 ^ 32 in
      let d = (dv * 32 + v / 2 ^ 5 % 32) % 2 ^ 32 in
      let e = (d * 32 + v / 2 ^ 0 % 32) % 2 ^ 32 in
      let first : d / 8 % 256 ≡ p = omega arith in
      let second : e / 1 % 256 ≡ x = omega arith in
      rw
        (
          decode_from-char_at 6 dv (v / 2 ^ 5 % 32) _ (omega arith),
          decode_from-char_at 3 d (v / 2 ^ 0 % 32) _ (omega arith),
          next.from_start v e,
        )
        (cc (first, second))

aligned : (bytes : List ℕ) → All (λ b. b < 256) bytes → Aligned bytes
unfolding encode_from decode_from
aligned [] _ = record {
  from_start = λ ev dv. refl;
  after_one = last_after_one;
  after_two = last_after_two;
  after_three = last_after_three;
  after_four = last_after_four;
}
aligned (x ∷ bytes) (small, all_small) =
    let next = aligned bytes all_small in
    record {
      from_start = first_byte bytes next x small;
      after_one = second_byte bytes next x small;
      after_two = third_byte bytes next x small;
      after_three = fourth_byte bytes next x small;
      after_four = fifth_byte bytes next x small;
    }

-- Where `toUpperCase` keeps texts of capital letters and digits: the text that encodes a list of
-- bytes is decoded to those bytes.
pub base32_decode-base32_encode :
    (crypto : Crypto)
    → ((s : String) → all is_base32 (codes s) ≡ true → crypto.to_upper_case s ≡ s)
    → (bytes : List ℕ) → All (λ b. b < 256) bytes
    → (text : String) → codes text ≡ base32_encode bytes
    → base32_decode crypto text ≡ ok bytes
unfolding base32_decode base32_encode
base32_decode-base32_encode crypto keeps bytes small text same =
    let chars = encode_from-all 0 0 bytes in
    rw (keeps text (rw same chars), same, strip_padding-kept _ chars)
      ((aligned bytes small).from_start 0 0)
