-- ===== src/Auth/Totp/Encode/Alphabet.antt =====
-- The characters that the encoder writes, and the decoder finds.
use live_ops_backend.Prelude.{
  ℕ, zero, suc, ◌+◌, ◌-◌, ◌*◌, ◌/◌, ◌%◌, ◌^◌, ◌<◌, ◌≡◌, refl, Bool, true, false, ◌&&◌, ◌||◌, all,
  List, [], ◌∷◌, ◌++◌, some, leb, eqb, arith, none,
}
use live_ops_backend.Auth.Totp.{base32_chars, index_from, strip_padding}
use live_ops_backend.Auth.Totp.Encode.{char_at, encode_from, write_groups, rest_bits}

-- `A` to `Z` and `2` to `7`
abbrev pub is_base32 : ℕ → Bool
is_base32 c = (leb b'A' c && leb c b'Z') || (leb b'2' c && leb c b'7')

finds : ℕ → Bool
unfolding index_from char_at
finds i =
    is_base32 (char_at i)
    && elim (index_from zero base32_chars (char_at i)) [ none ↦ false | some j ↦ eqb i j ]

finds_below : ℕ → Bool
finds_below zero = true
finds_below (suc n) = finds n && finds_below n

finds_below→found :
    (n : ℕ)
    → finds_below n ≡ true
    → (i : ℕ) → i < n
    → (index_from zero base32_chars (char_at i) ≡ some i) × (is_base32 (char_at i) ≡ true)
unfolding finds_below finds
finds_below→found zero h i b = absurd (omega arith)
finds_below→found (suc n) h i b = ground (arith, h, finds_below→found n)

-- The 32 characters, by evaluation.
pub char_at-found :
    (i : ℕ)
    → i < 32
    → (index_from zero base32_chars (char_at i) ≡ some i) × (is_base32 (char_at i) ≡ true)
unfolding finds_below finds index_from char_at
char_at-found = finds_below→found 32 refl

write_groups-all : (bits value : ℕ) → all is_base32 (write_groups bits value) ≡ true
unfolding write_groups
write_groups-all (suc (suc (suc (suc (suc bits))))) value =
    rw ((char_at-found (value / 2 ^ bits % 32) (omega arith)).1) (write_groups-all bits value)
write_groups-all zero value = refl
write_groups-all (suc zero) value = refl
write_groups-all (suc (suc zero)) value = refl
write_groups-all (suc (suc (suc zero))) value = refl
write_groups-all (suc (suc (suc (suc zero)))) value = refl

all-++ :
    (xs ys : List ℕ)
    → all is_base32 xs ≡ true
    → all is_base32 ys ≡ true
    → all is_base32 (xs ++ ys) ≡ true
all-++ [] ys h k = k
all-++ (x ∷ xs) ys h k = ground (arith, h, all-++ xs ys)

pub encode_from-all :
    (bits value : ℕ) (bytes : List ℕ) → all is_base32 (encode_from bits value bytes) ≡ true
unfolding encode_from rest_bits write_groups
encode_from-all zero value [] = refl
encode_from-all (suc bits) value [] =
    rw ((char_at-found (value * 2 ^ (5 - suc bits) % 32) (omega arith)).1) refl
encode_from-all zero value (byte ∷ bytes) =
    let v = (value * 256 + byte) % 2 ^ 32 in
    all-++ (write_groups 8 v) (encode_from 3 v bytes) (write_groups-all 8 v)
      (encode_from-all 3 v bytes)
encode_from-all (suc bits) value (byte ∷ bytes) =
    let v = (value * 256 + byte) % 2 ^ 32 in
    let b = suc bits + 8 in
    all-++ (write_groups b v) (encode_from (rest_bits b) v bytes) (write_groups-all b v)
      (encode_from-all (rest_bits b) v bytes)

pub strip_padding-kept : (cs : List ℕ) → all is_base32 cs ≡ true → strip_padding cs ≡ cs
unfolding strip_padding
strip_padding-kept [] h = refl
strip_padding-kept (c ∷ cs) h = ground (arith, h, strip_padding-kept cs)
