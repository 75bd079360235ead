-- ===== src/Auth/Totp/Windows.antt =====
-- Which codes are accepted.
use live_ops_backend.Prelude.{
  ℕ, String, ◌≡◌, refl, true, List, [], ◌∷◌, Outcome, ok, throw, arith, In, here, there, length,
  eqb, Bool-cases, inl, inr, ap, ◌∙◌, sym,
}
use live_ops_backend.Guards.{same_codes, same_codes-eq}
use live_ops_backend.Auth.Totp.{
  Crypto, generate_totp_token, safe_equal, or_next, verify_at, windows, verify_totp_token,
}

module _ (crypto : Crypto) where
  verify_at-In :
      (token : List ℕ) (secret : String) (times : List ℕ)
      → verify_at crypto token secret times ≡ ok true
      → (t : ℕ) × In t times × (generate_totp_token crypto secret t ≡ ok token)
  unfolding verify_at
  verify_at-In token secret [] h = cc
  verify_at-In token secret (time ∷ times) h =
      by_token (generate_totp_token crypto secret time) refl (verify_at-In token secret times) h
    where
      by_token :
          (o : Outcome (List ℕ))
          → generate_totp_token crypto secret time ≡ o
          → (verify_at crypto token secret times ≡ ok true
              → (t : ℕ) × In t times × (generate_totp_token crypto secret t ≡ ok token))
          → or_next crypto (safe_equal crypto token o) (verify_at crypto token secret times)
            ≡ ok true
          → (t : ℕ) × In t (time ∷ times) × (generate_totp_token crypto secret t ≡ ok token)
      by_token (throw e) made later h = cc
      by_token (ok expected) made later h =
          elim (Bool-cases (eqb (length token) (length expected))) [
            | inr other ↦ absurd (ground (arith, h, other))
            | inl long ↦ elim (Bool-cases (same_codes token expected)) [
              | inl same ↦ (time, here, made ∙ ap ok (sym (same_codes-eq token expected same)))
              | inr differs ↦
                  let (t, m, e) = later (ground (arith, h, long, differs)) in (t, there m, e)
            ]
          ]

  -- A code is accepted only where it is the code of its secret for now, or for thirty seconds before
  -- or after.
  pub verify_totp_token-In :
      (now : ℕ) (token secret : String)
      → verify_totp_token crypto now token secret ≡ ok true
      → (t : ℕ) × In t (windows crypto now)
        × (generate_totp_token crypto secret t ≡ ok (crypto.utf8 token))
  unfolding verify_totp_token
  verify_totp_token-In now token secret h =
      verify_at-In (crypto.utf8 token) secret (windows crypto now) h
