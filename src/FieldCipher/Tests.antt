-- ===== src/FieldCipher/Tests.antt =====
-- A cipher that leaves the text as it is, and tags it with zeros.
use live_ops_backend.Prelude.{
  ℕ, ◌≡◌, refl, true, List, [], ◌∷◌, ◌++◌, none, some, ok, throw, internal, if◌then◌else◌, arith,
  ◌<◌, All,
}
use live_ops_backend.Guards.{codes, same_codes}
use live_ops_backend.FieldCipher.{Aes, key_of, is_encrypted, encrypt, decrypt}
use live_ops_backend.FieldCipher.RoundTrip.{IsSound, decrypt-encrypt}

abbrev zeros : List ℕ
zeros = 0 ∷ 0 ∷ 0 ∷ 0 ∷ 0 ∷ 0 ∷ 0 ∷ 0 ∷ 0 ∷ 0 ∷ 0 ∷ 0 ∷ 0 ∷ 0 ∷ 0 ∷ 0 ∷ []

abbrev aes : Aes
aes = record {
  seal = λ key iv plain. (plain, zeros);
  unseal = λ key iv tag data_. if same_codes tag zeros then some data_ else none;
  utf8 = codes;
  text_of = λ bytes. if same_codes bytes (codes "k7") then "k7" else "?";
}

abbrev vector : List ℕ
vector = 1 ∷ 2 ∷ 3 ∷ 4 ∷ 5 ∷ 6 ∷ 7 ∷ 8 ∷ 9 ∷ 10 ∷ 11 ∷ 255 ∷ []

zeros_small : All (λ b. b < 256) zeros
zeros_small = search arith

vector_small : All (λ b. b < 256) vector
vector_small = search arith

text_small : All (λ b. b < 256) (codes "k7")
text_small = search arith

aes-IsSound : IsSound aes
aes-IsSound = record {
  unsealed = λ key iv plain. refl;
  bytes = λ key iv plain small. (small, zeros_small);
  tagged = λ key iv plain. refl;
}

-- nothing is configured: the key is all zeros
no_key : key_of [] ≡ zeros ++ zeros
unfolding key_of
no_key = refl

encrypts :
    encrypt aes [] vector "k7"
    ≡ codes "0102030405060708090a0bff:00000000000000000000000000000000:6b37"
unfolding encrypt
encrypts = refl

-- a tag that does not fit
rejects :
    decrypt aes [] (codes "01:02:03")
    ≡ throw (internal "Unsupported state or unable to authenticate data")
unfolding decrypt
rejects = refl

decrypt-encrypt_example :
    (is_encrypted (encrypt aes (key_of []) vector "k7") ≡ true)
    × (decrypt aes (key_of []) (encrypt aes (key_of []) vector "k7") ≡ ok "k7")
decrypt-encrypt_example =
    decrypt-encrypt aes aes-IsSound (key_of []) vector vector_small refl "k7" text_small refl
