-- ===== src/Auth/Totp/Encode.antt =====
-- The encoder of src/common/utils/totp.ts, which writes the secrets that the decoder reads. A text is
-- the list of its codes. `value` is a 32-bit word, as in the decoder.
pub mod Alphabet
pub mod RoundTrip
use live_ops_backend.Prelude.{ℕ, zero, suc, ◌+◌, ◌-◌, ◌*◌, ◌/◌, ◌%◌, ◌^◌, List, [], ◌∷◌, ◌++◌}
use live_ops_backend.Auth.Totp.{base32_chars, byte_at}

-- `BASE32_CHARS[i]`
unfoldable pub char_at : ℕ → ℕ
unfolding byte_at
char_at i = byte_at base32_chars i

-- `while (bits >= 5)`: the characters that it writes. The pattern is the test, and leaves
-- `bits - 5`.
unfoldable pub write_groups : ℕ → ℕ → List ℕ
unfolding char_at
write_groups (suc (suc (suc (suc (suc bits))))) value =
    char_at (value / 2 ^ bits % 32) ∷ write_groups bits value
write_groups _ value = []

-- `bits` after that loop
unfoldable pub rest_bits : ℕ → ℕ
rest_bits (suc (suc (suc (suc (suc bits))))) = rest_bits bits
rest_bits bits = bits

-- the loop over the bytes, and the group of what is left, `if (bits > 0)`
unfoldable pub encode_from : ℕ → ℕ → List ℕ → List ℕ
unfolding write_groups rest_bits char_at
encode_from zero value [] = []
encode_from (suc bits) value [] = char_at (value * 2 ^ (5 - suc bits) % 32) ∷ []
encode_from bits value (byte ∷ bytes) =
    let v = (value * 256 + byte) % 2 ^ 32 in
    write_groups (bits + 8) v ++ encode_from (rest_bits (bits + 8)) v bytes

unfoldable pub base32_encode : List ℕ → List ℕ
unfolding encode_from
base32_encode bytes = encode_from zero zero bytes
