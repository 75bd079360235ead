-- ===== src/FieldCipher/RoundTrip.antt =====
-- What was encrypted is decrypted, and looks encrypted.
use live_ops_backend.Prelude.{
  ℕ, ◌*◌, ◌/◌, ◌%◌, ◌<◌, String, ◌≡◌, refl, true, false, List, [], ◌∷◌, ◌++◌, some, ok, eqb, length,
  arith, All, ap, ◌∙◌,
}
use live_ops_backend.FieldCipher.{
  Aes, hex_digit, to_hex, digit_of, from_hex, colon, split, is_encrypted, encrypt, decrypt,
}

digit_of-hex_digit : (n : ℕ) → n < 16 → digit_of (hex_digit n) ≡ some n
digit_of-hex_digit n small = ground arith

hex_digit-colon : (n : ℕ) → n < 16 → eqb (hex_digit n) colon ≡ false
hex_digit-colon n small = ground arith

from_hex-to_hex : (bs : List ℕ) → All (λ b. b < 256) bs → from_hex (to_hex bs) ≡ bs
unfolding from_hex to_hex
from_hex-to_hex [] small = refl
from_hex-to_hex (b ∷ bs) (s, small) =
    rw
      (
        digit_of-hex_digit (b / 16) (omega arith),
        digit_of-hex_digit (b % 16) (omega arith),
        from_hex-to_hex bs small,
      )
      (ap (λ x. x ∷ bs) (omega arith))

length-to_hex : (bs : List ℕ) → length (to_hex bs) ≡ length bs * 2
unfolding to_hex
length-to_hex [] = refl
length-to_hex (b ∷ bs) = ground (arith, length-to_hex bs)

-- A part in front of a colon.
split-to_hex :
    (bs rest : List ℕ)
    → All (λ b. b < 256) bs
    → split (to_hex bs ++ colon ∷ rest) ≡ to_hex bs ∷ split rest
unfolding split to_hex
split-to_hex [] rest small = refl
split-to_hex (b ∷ bs) rest (s, small) =
    rw
      (
        split-to_hex bs rest small,
        hex_digit-colon (b / 16) (omega arith),
        hex_digit-colon (b % 16) (omega arith),
      )
      refl

split_last : (bs : List ℕ) → All (λ b. b < 256) bs → split (to_hex bs) ≡ to_hex bs ∷ []
unfolding split to_hex
split_last [] small = refl
split_last (b ∷ bs) (s, small) =
    rw
      (
        split_last bs small,
        hex_digit-colon (b / 16) (omega arith),
        hex_digit-colon (b % 16) (omega arith),
      )
      refl

-- A cipher whose deciphering gives back what was enciphered with the same key and vector, whose
-- output is bytes where its input is, and whose tags are sixteen bytes.
pub record IsSound (aes : Aes) : Type 0 where
  pub unsealed :
      (key iv plain : List ℕ)
      → aes.unseal key iv (aes.seal key iv plain).1 (aes.seal key iv plain).0 ≡ some plain
  pub bytes :
      (key iv plain : List ℕ)
      → All (λ b. b < 256) plain
      → All (λ b. b < 256) (aes.seal key iv plain).0 × All (λ b. b < 256) (aes.seal key iv plain).1
  pub tagged : (key iv plain : List ℕ) → length (aes.seal key iv plain).1 ≡ 16

-- With a sound cipher and a vector of twelve bytes: a text that UTF-8 turns into bytes and back looks
-- encrypted when it was encrypted, and is then decrypted with the same key to what it was.
pub decrypt-encrypt :
    (aes : Aes)
    → IsSound aes
    → (key iv : List ℕ) → All (λ b. b < 256) iv
    → length iv ≡ 12
    → (plaintext : String) → All (λ b. b < 256) (aes.utf8 plaintext)
    → aes.text_of (aes.utf8 plaintext) ≡ plaintext
    → (is_encrypted (encrypt aes key iv plaintext) ≡ true)
      × (decrypt aes key (encrypt aes key iv plaintext) ≡ ok plaintext)
unfolding is_encrypted decrypt encrypt
decrypt-encrypt aes sound key iv small twelve plaintext text_bytes decoded =
    let (data_, tag) = aes.seal key iv (aes.utf8 plaintext) in
    let (small_data, small_tag) = sound.bytes key iv (aes.utf8 plaintext) text_bytes in
    let parts : split (encrypt aes key iv plaintext) ≡ to_hex iv ∷ to_hex tag ∷ to_hex data_ ∷ [] =
      split-to_hex iv _ small
      ∙ ap (λ ps. to_hex iv ∷ ps)
          (split-to_hex tag _ small_tag
            ∙ ap (λ ps. to_hex tag ∷ ps) (split_last data_ small_data)) in
    (
      rw
          (
            parts,
            length-to_hex iv,
            length-to_hex tag,
            twelve,
            sound.tagged key iv (aes.utf8 plaintext),
          )
          refl,
      rw
          (
            parts,
            from_hex-to_hex iv small,
            from_hex-to_hex tag small_tag,
            from_hex-to_hex data_ small_data,
            sound.unsealed key iv (aes.utf8 plaintext),
          )
          (ap ok decoded),
    )
