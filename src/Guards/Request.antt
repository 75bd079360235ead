-- ===== src/Guards/Request.antt =====
-- What src/common/guards/permissions.guard.ts and roles.guard.ts read of a request and of the
-- database. The queries are parameters; a query may fail. `toUpperCase` and `trim` are JavaScript's,
-- whose Unicode tables are not modelled.
use Prim.Native.Char.{code}
use live_ops_backend.Prelude.{
  ℕ, zero, suc, String, ◌==◌, Bool, true, false, ◌&&◌, ◌||◌, List, [], ◌∷◌, Option, none, some, ◌≡◌,
  refl, arith, if◌then◌else◌, leb, eqb,
}

abbrev pub codes : String → List ℕ
codes String.[] = []
codes (String.◌∷◌ c s) = code c ∷ codes s

-- `[0-9a-f]` of the pattern, which ignores case
abbrev pub is_hex : ℕ → Bool
is_hex c = (leb b'0' c && leb c b'9') || ((leb b'a' c && leb c b'f') || (leb b'A' c && leb c b'F'))

-- `[1-5]`
abbrev pub is_version : ℕ → Bool
is_version c = leb b'1' c && leb c b'5'

-- `[89ab]`
abbrev pub is_variant : ℕ → Bool
is_variant c =
    (eqb c b'8' || eqb c b'9') || ((eqb c b'a' || eqb c b'b') || (eqb c b'A' || eqb c b'B'))

abbrev pub is_dash : ℕ → Bool
is_dash c = eqb c b'-'

abbrev pub times : ℕ → (ℕ → Bool) → List (ℕ → Bool) → List (ℕ → Bool)
times zero p ps = ps
times (suc k) p ps = p ∷ times k p ps

-- `uuidRegex`, a class for each character
abbrev pub uuid_pattern : List (ℕ → Bool)
uuid_pattern = times 8 is_hex (
    is_dash
    ∷ times 4 is_hex (
        is_dash
        ∷ is_version
        ∷ times 3 is_hex (is_dash ∷ is_variant ∷ times 3 is_hex (is_dash ∷ times 12 is_hex []))))

unfoldable pub matches : List (ℕ → Bool) → List ℕ → Bool
matches [] [] = true
matches (p ∷ ps) (c ∷ cs) = p c && matches ps cs
matches _ _ = false

unfoldable pub is_uuid : String → Bool
unfolding matches
is_uuid s = matches uuid_pattern (codes s)

-- a query of the database: rejected, or its result
pub data Query (A : Type 0) : Type 0 where
  rejected : Query A
  result : A → Query A

-- a role with the `action`s of its permissions, null where the permission is missing
pub record DbRole : Type 0 where
  pub name : String
  pub permissions : List (Option String)

-- `.filter((rp) => rp.permission).map((rp) => rp.permission.action)`
abbrev pub actions_of : List (Option String) → List String
actions_of [] = []
actions_of (none ∷ ps) = actions_of ps
actions_of (some a ∷ ps) = a ∷ actions_of ps

abbrev pub same_codes : List ℕ → List ℕ → Bool
same_codes [] [] = true
same_codes (a ∷ s) (b ∷ t) = eqb a b && same_codes s t
same_codes _ _ = false

pub same_codes-eq : (a b : List ℕ) → same_codes a b ≡ true → a ≡ b
same_codes-eq [] [] h = refl
same_codes-eq [] (b ∷ bs) h = cc h
same_codes-eq (a ∷ as_) [] h = cc h
same_codes-eq (a ∷ as_) (b ∷ bs) h = ground (arith, h, same_codes-eq as_ bs)

pub same_codes_refl : (a : List ℕ) → same_codes a a ≡ true
same_codes_refl [] = refl
same_codes_refl (x ∷ xs) = ground (arith, same_codes_refl xs)

abbrev pub is_suffix : List ℕ → List ℕ → Bool
is_suffix t [] = same_codes t []
is_suffix t (c ∷ s) = same_codes t (c ∷ s) || is_suffix t s

-- `s.endsWith(t)`
unfoldable pub ends_with : String → String → Bool
ends_with s t = is_suffix (codes t) (codes s)

pub record Request : Type 0 where
  -- `request.user?.userId`
  pub user : Option String
  pub param_production_id : Option String
  pub param_id : Option String
  pub body_production_id : Option String

-- `a || b` on texts
abbrev pub or_text : Option String → Option String → Option String
or_text none b = b
or_text (some s) b = if s == "" then b else some s

abbrev pub if_uuid : Option String → Option String
if_uuid none = none
if_uuid (some s) = if is_uuid s then some s else none

-- the production that a request is about, if its id is a UUID
unfoldable pub production_of : Request → Option String
production_of r = if_uuid (or_text r.param_production_id (or_text r.param_id r.body_production_id))
