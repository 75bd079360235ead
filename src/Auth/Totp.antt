-- ===== src/Auth/Totp.antt =====
-- Time-based codes: src/common/utils/totp.ts. HMAC, UTF-8 and `toUpperCase` are parameters. The
-- decoder's `value` is a 32-bit word, which `<<` shifts and cuts. A time before the first window
-- stands at 0.
pub mod Encode
pub mod Accepted
mod Tests
pub mod Windows
use live_ops_backend.Prelude.{
  ℕ, zero, suc, ◌+◌, ◌-◌, ◌*◌, ◌/◌, ◌%◌, ◌^◌, String, ◌==◌, Bool, true, false, ◌&&◌, List, [], ◌∷◌,
  ◌++◌, Option, none, some, Outcome, ok, throw, internal, if◌then◌else◌, eqb, leb, length,
}
use live_ops_backend.Guards.{codes, same_codes}

pub record Crypto : Type 0 where
  -- HMAC-SHA1 of a key and a message, as bytes
  pub hmac : List ℕ → List ℕ → List ℕ
  -- `Buffer.from(text)`
  pub utf8 : String → List ℕ
  pub to_upper_case : String → String

abbrev pub base32_chars : List ℕ
base32_chars = codes "ABCDEFGHIJKLMNOPQRSTUVWXYZ234567"

-- `BASE32_CHARS.indexOf(c)`, none for -1
unfoldable pub index_from : ℕ → List ℕ → ℕ → Option ℕ
index_from n [] c = none
index_from n (d ∷ ds) c = let rest = index_from (suc n) ds c in if eqb d c then some n else rest

abbrev pub is_nil : List ℕ → Bool
is_nil [] = true
is_nil (_ ∷ _) = false

-- `replace(/=+$/, '')`
unfoldable pub strip_padding : List ℕ → List ℕ
strip_padding [] = []
strip_padding (c ∷ cs) =
    let rest = strip_padding cs in if eqb c b'=' && is_nil rest then [] else c ∷ rest

abbrev pub with_byte : Bool → ℕ → Outcome (List ℕ) → Outcome (List ℕ)
with_byte true b (ok bytes) = ok (b ∷ bytes)
with_byte false b (ok bytes) = ok bytes
with_byte _ b (throw e) = throw e

-- the loop over the characters, with `bits` and `value`
unfoldable pub decode_from : ℕ → ℕ → List ℕ → Outcome (List ℕ)
unfolding index_from
decode_from bits value [] = ok []
decode_from bits value (c ∷ cs) = elim (index_from zero base32_chars c) [
  | none ↦ throw (internal "Invalid base32 char")
  | some i ↦
      let v = (value * 32 + i) % 2 ^ 32 in
      let b = bits + 5 in
      let left = if leb 8 b then b - 8 else b in
      with_byte (leb 8 b) (v / 2 ^ (b - 8) % 256) (decode_from left v cs)
]

-- four bytes, the highest first
abbrev pub big_endian : ℕ → List ℕ
big_endian n = (n / 2 ^ 24 % 256) ∷ (n / 2 ^ 16 % 256) ∷ (n / 2 ^ 8 % 256) ∷ (n % 256) ∷ []

unfoldable pub byte_at : List ℕ → ℕ → ℕ
byte_at [] k = zero
byte_at (b ∷ bs) zero = b
byte_at (b ∷ bs) (suc k) = byte_at bs k

abbrev pub digit : ℕ → ℕ
digit n = b'0' + n % 10

-- `String(n).padStart(6, '0')` of a number below a million
abbrev pub six_digits : ℕ → List ℕ
six_digits n =
    digit (n / 100000)
    ∷ digit (n / 10000)
    ∷ digit (n / 1000)
    ∷ digit (n / 100)
    ∷ digit (n / 10)
    ∷ digit n
    ∷ []

-- the number that the hash is cut to
unfoldable pub truncated : List ℕ → ℕ
unfolding byte_at
truncated h =
    let o = byte_at h (length h - 1) % 16 in
    byte_at h o % 128 * 2 ^ 24
    + (byte_at h (o + 1) % 256 * 2 ^ 16
        + (byte_at h (o + 2) % 256 * 2 ^ 8 + byte_at h (o + 3) % 256))

module _ (crypto : Crypto) where
  unfoldable pub base32_decode : String → Outcome (List ℕ)
  unfolding decode_from strip_padding
  base32_decode input = decode_from zero zero (strip_padding (codes (crypto.to_upper_case input)))

  abbrev pub token_of : ℕ → Outcome (List ℕ) → Outcome (List ℕ)
  token_of counter (throw e) = throw e
  token_of counter (ok key) = ok (
      six_digits (
        truncated (crypto.hmac key (big_endian (counter / 2 ^ 32) ++ big_endian (counter % 2 ^ 32)))
        % 1000000))

  unfoldable pub generate_totp_token : String → ℕ → Outcome (List ℕ)
  unfolding base32_decode truncated
  generate_totp_token secret time = token_of (time / 30000) (base32_decode secret)

  -- `crypto.timingSafeEqual`, which throws for buffers of different lengths
  abbrev pub safe_equal : List ℕ → Outcome (List ℕ) → Outcome Bool
  safe_equal token (throw e) = throw e
  safe_equal token (ok expected) =
      if eqb (length token) (length expected)
      then ok (same_codes token expected)
      else throw (internal "Input buffers must have the same byte length")

  abbrev pub or_next : Outcome Bool → Outcome Bool → Outcome Bool
  or_next (ok true) next = ok true
  or_next (ok false) next = next
  or_next (throw e) next = throw e

  -- the loop over the windows
  unfoldable pub verify_at : List ℕ → String → List ℕ → Outcome Bool
  unfolding generate_totp_token
  verify_at token secret [] = ok false
  verify_at token secret (time ∷ times) =
      or_next (safe_equal token (generate_totp_token secret time)) (verify_at token secret times)

  abbrev pub windows : ℕ → List ℕ
  windows now = (now - 30000) ∷ now ∷ (now + 30000) ∷ []

  unfoldable pub verify_totp_token : ℕ → String → String → Outcome Bool
  unfolding verify_at
  verify_totp_token now token secret = verify_at (crypto.utf8 token) secret (windows now)
