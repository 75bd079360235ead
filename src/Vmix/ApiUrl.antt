-- ===== src/Vmix/ApiUrl.antt =====
-- The address of the API and the commands of src/vmix/vmix-connection.manager.ts. A text is the list
-- of its codes. `URLSearchParams` and HTTP are parameters.
pub mod Settled
use live_ops_backend.Prelude.{
  is_prefix, ℕ, String, ◌==◌, ◌≡◌, refl, Bool, true, false, ◌&&◌, ◌||◌, List, [], ◌∷◌, ◌++◌, Option,
  none, some, if◌then◌else◌, eqb, leb, arith, Bool-cases, inl, inr, sym, ap, ◌∙◌, subst, Outcome,
  ok, throw, internal, In, here, there, any,
}
use live_ops_backend.Prelude.Map.{get}
use live_ops_backend.Guards.{codes, same_codes, is_suffix}
use live_ops_backend.Vmix.{VmixInstance, Vmix}

-- white space and line ends, which `trim` takes off
abbrev pub is_space : ℕ → Bool
is_space c =
    (leb 9 c && leb c 13)
    || any (eqb c) (32 ∷ 160 ∷ 5760 ∷ 8232 ∷ 8233 ∷ 8239 ∷ 8287 ∷ 12288 ∷ 65279 ∷ [])
    || (leb 8192 c && leb c 8202)

abbrev pub is_slash : ℕ → Bool
is_slash c = eqb c b'/'

abbrev pub is_nil : List ℕ → Bool
is_nil [] = true
is_nil (_ ∷ _) = false

unfoldable pub strip_start : (ℕ → Bool) → List ℕ → List ℕ
strip_start p [] = []
strip_start p (c ∷ cs) = let rest = strip_start p cs in if p c then rest else c ∷ cs

unfoldable pub strip_end : (ℕ → Bool) → List ℕ → List ℕ
strip_end p [] = []
strip_end p (c ∷ cs) = let rest = strip_end p cs in if p c && is_nil rest then [] else c ∷ rest

abbrev pub http : List ℕ
http = codes "http"

abbrev pub api : List ℕ
api = codes "/api"

abbrev pub with_scheme : List ℕ → List ℕ
with_scheme url = if is_prefix http url then url else codes "http://" ++ url

abbrev pub with_api : List ℕ → List ℕ
with_api url = if is_suffix api url then url else url ++ api

unfoldable pub get_api_url : List ℕ → List ℕ
unfolding strip_start strip_end
get_api_url url =
    with_api (strip_end is_slash (with_scheme (strip_end is_space (strip_start is_space url))))
