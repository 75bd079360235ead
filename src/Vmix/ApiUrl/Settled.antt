-- ===== src/Vmix/ApiUrl/Settled.antt =====
-- An address of the API is its own address.
use live_ops_backend.Prelude.{
  is_prefix→++, is_prefix, ℕ, ◌≡◌, refl, Bool, true, false, ◌&&◌, List, [], ◌∷◌, ◌++◌,
  if◌then◌else◌, arith, Bool-cases, inl, inr, sym, ap,
}
use mathlib.Core.List.{append_assoc}
use live_ops_backend.Guards.{codes, same_codes, is_suffix, same_codes-eq}
use live_ops_backend.Vmix.ApiUrl.{
  is_space, is_slash, is_nil, strip_start, strip_end, http, api, with_scheme, with_api, get_api_url,
}

-- Stripping the end stops at what is kept.
strip_end-kept :
    (p : ℕ → Bool) (cs : List ℕ) (c : ℕ) → p c ≡ false → strip_end p (cs ++ c ∷ []) ≡ cs ++ c ∷ []
unfolding strip_end
strip_end-kept p [] c keep = rw keep refl
strip_end-kept p (b ∷ cs) c keep = rw (strip_end-kept p cs c keep) (shown cs)
  where
    shown :
        (cs : List ℕ)
        → (if p b && is_nil (cs ++ c ∷ []) then [] else b ∷ (cs ++ c ∷ [])) ≡ b ∷ (cs ++ c ∷ [])
    shown [] = ground arith
    shown (d ∷ ds) = ground arith

strip_end-api : (p : ℕ → Bool) (v : List ℕ) → p b'i' ≡ false → strip_end p (v ++ api) ≡ v ++ api
strip_end-api p v keep =
    let split : (v ++ codes "/ap") ++ codes "i" ≡ v ++ api =
      append_assoc v (codes "/ap") (codes "i") in
    rw (← split) (strip_end-kept p (v ++ codes "/ap") b'i' keep)

is_suffix→++ : (t s : List ℕ) → is_suffix t s ≡ true → (v : List ℕ) × (s ≡ v ++ t)
is_suffix→++ t [] h = ([], sym (same_codes-eq t [] h))
is_suffix→++ t (c ∷ s) h = elim (Bool-cases (same_codes t (c ∷ s))) [
  | inl same ↦ ([], sym (same_codes-eq t (c ∷ s) same))
  | inr other ↦
      let (v, e) = is_suffix→++ t s (ground (arith, h, other)) in (c ∷ v, ap (λ r. c ∷ r) e)
]

is_suffix-api : (v : List ℕ) → is_suffix api (v ++ api) ≡ true
is_suffix-api [] = refl
is_suffix-api (c ∷ v) = ground (arith, is_suffix-api v)

-- an address that begins with `http` and ends with `/api`
record IsApi (url : List ℕ) : Type 0 where
  begins : (v : List ℕ) × (url ≡ http ++ v)
  ends : (v : List ℕ) × (url ≡ v ++ api)

with_scheme-begins : (url : List ℕ) → (v : List ℕ) × (with_scheme url ≡ http ++ v)
with_scheme-begins url = elim (Bool-cases (is_prefix http url)) [
  | inl has_it ↦ let (v, e) = is_prefix→++ http url has_it in (v, rw has_it e)
  | inr lacks ↦ (codes "://" ++ url, rw lacks refl)
]

strip_end-begins : (v : List ℕ) → strip_end is_slash (http ++ v) ≡ http ++ strip_end is_slash v
unfolding strip_end
strip_end-begins v = refl

with_api-IsApi : (v : List ℕ) → IsApi (with_api (http ++ v))
with_api-IsApi v = elim (Bool-cases (is_suffix api (http ++ v))) [
  | inl has_it ↦
      rw has_it (record { begins = (v, refl); ends = is_suffix→++ api (http ++ v) has_it })
  | inr lacks ↦ rw lacks (record { begins = (v ++ api, refl); ends = (http ++ v, refl) })
]

get_api_url-IsApi : (url : List ℕ) → IsApi (get_api_url url)
unfolding get_api_url
get_api_url-IsApi url =
    let (v, e) = with_scheme-begins (strip_end is_space (strip_start is_space url)) in
    rw (e, strip_end-begins v) (with_api-IsApi (strip_end is_slash v))

strip_start-begins : (v : List ℕ) → strip_start is_space (http ++ v) ≡ http ++ v
unfolding strip_start
strip_start-begins v = refl

get_api_url-settled : (url : List ℕ) → IsApi url → get_api_url url ≡ url
unfolding get_api_url
get_api_url-settled url i =
    let started : strip_start is_space url ≡ url =
      rw (i.begins.1) (strip_start-begins i.begins.0) in
    let trimmed : strip_end is_space url ≡ url =
      rw (i.ends.1) (strip_end-api is_space i.ends.0 refl) in
    let schemed : with_scheme url ≡ url = rw (i.begins.1) refl in
    let slashed : strip_end is_slash url ≡ url =
      rw (i.ends.1) (strip_end-api is_slash i.ends.0 refl) in
    let suffixed : is_suffix api url ≡ true = rw (i.ends.1) (is_suffix-api i.ends.0) in
    rw (started, trimmed, schemed, slashed, suffixed) refl

-- The address of the API for the address of the API is that address.
pub get_api_url-get_api_url : (url : List ℕ) → get_api_url (get_api_url url) ≡ get_api_url url
get_api_url-get_api_url url = get_api_url-settled (get_api_url url) (get_api_url-IsApi url)
