-- ===== src/FieldCipher.antt =====
-- Encrypted fields: src/common/crypto/field-cipher.service.ts. A text is the list of its codes, a
-- buffer the list of its bytes. AES-256-GCM and UTF-8 are parameters; the initialisation vector is an
-- argument.
pub mod RoundTrip
mod Tests
use live_ops_backend.Prelude.{
  ℕ, zero, suc, ◌+◌, ◌-◌, ◌*◌, ◌/◌, ◌%◌, String, Bool, true, false, ◌&&◌, ◌||◌, List, [], ◌∷◌, ◌++◌,
  Option, none, some, Outcome, ok, throw, internal, if◌then◌else◌, eqb, leb, ltb, length, filter,
}
use live_ops_backend.Guards.{is_hex}

pub record Aes : Type 0 where
  -- `update` and `final` of a cipher with a key and a vector: the data, and the tag
  pub seal : List ℕ → List ℕ → List ℕ → List ℕ × List ℕ
  -- the same of a decipher with a key, a vector and a tag, null where it throws
  pub unseal : List ℕ → List ℕ → List ℕ → List ℕ → Option (List ℕ)
  pub utf8 : String → List ℕ
  -- `toString('utf8')`
  pub text_of : List ℕ → String

abbrev pub hex_digit : ℕ → ℕ
hex_digit n = if ltb n 10 then b'0' + n else b'a' + (n - 10)

-- `buffer.toString('hex')`
unfoldable pub to_hex : List ℕ → List ℕ
to_hex [] = []
to_hex (b ∷ bs) = hex_digit (b / 16) ∷ hex_digit (b % 16) ∷ to_hex bs

abbrev pub digit_of : ℕ → Option ℕ
digit_of c =
    if leb b'0' c && leb c b'9'
    then some (c - b'0')
    else if leb b'a' c && leb c b'f'
    then some (c - b'a' + 10)
    else if leb b'A' c && leb c b'F'
    then some (c - b'A' + 10)
    else none

abbrev pub byte_and : Option ℕ → Option ℕ → List ℕ → List ℕ
byte_and (some x) (some y) rest = (x * 16 + y) ∷ rest
byte_and _ _ rest = []

-- `Buffer.from(text, 'hex')`, which ends before the first pair that is not two digits
unfoldable pub from_hex : List ℕ → List ℕ
from_hex [] = []
from_hex (c ∷ []) = []
from_hex (c ∷ d ∷ cs) = let rest = from_hex cs in byte_and (digit_of c) (digit_of d) rest

abbrev pub colon : ℕ
colon = b':'

abbrev pub onto_first : ℕ → List (List ℕ) → List (List ℕ)
onto_first c [] = (c ∷ []) ∷ []
onto_first c (part ∷ parts) = (c ∷ part) ∷ parts

-- `text.split(':')`
unfoldable pub split : List ℕ → List (List ℕ)
split [] = [] ∷ []
split (c ∷ cs) = let rest = split cs in if eqb c colon then [] ∷ rest else onto_first c rest

-- `text.padEnd(n, '0').slice(0, n)`
unfoldable pub fit : ℕ → List ℕ → List ℕ
fit zero cs = []
fit (suc n) [] = b'0' ∷ fit n []
fit (suc n) (c ∷ cs) = c ∷ fit n cs

-- the key for what is configured
unfoldable pub key_of : List ℕ → List ℕ
unfolding fit from_hex
key_of raw = from_hex (fit 64 (filter is_hex raw))

abbrev pub iv_len : ℕ
iv_len = 12

abbrev pub tag_len : ℕ
tag_len = 16

-- `parts.length === 3`, with the lengths of the first two
abbrev pub is_token : List (List ℕ) → Bool
is_token (iv ∷ tag ∷ data_ ∷ []) = eqb (length iv) (iv_len * 2) && eqb (length tag) (tag_len * 2)
is_token _ = false

unfoldable pub is_encrypted : List ℕ → Bool
unfolding split
is_encrypted value = is_token (split value)

module _ (aes : Aes) where
  -- `iv:tag:data`
  abbrev pub joined : List ℕ → List ℕ × List ℕ → List ℕ
  joined iv (data_, tag) = to_hex iv ++ colon ∷ (to_hex tag ++ colon ∷ to_hex data_)

  unfoldable pub encrypt : List ℕ → List ℕ → String → List ℕ
  unfolding to_hex
  encrypt key iv plaintext = joined iv (aes.seal key iv (aes.utf8 plaintext))

  abbrev pub text_or_throw : Option (List ℕ) → Outcome String
  text_or_throw none = throw (internal "Unsupported state or unable to authenticate data")
  text_or_throw (some bytes) = ok (aes.text_of bytes)

  abbrev pub decrypt_parts : List ℕ → List (List ℕ) → Outcome String
  decrypt_parts key (iv ∷ tag ∷ data_ ∷ []) =
      text_or_throw (aes.unseal key (from_hex iv) (from_hex tag) (from_hex data_))
  decrypt_parts key _ = throw (internal "Invalid ciphertext format")

  unfoldable pub decrypt : List ℕ → List ℕ → Outcome String
  unfolding split from_hex
  decrypt key ciphertext = decrypt_parts key (split ciphertext)
