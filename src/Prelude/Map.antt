-- ===== src/Prelude/Map.antt =====
-- JavaScript's `Map` and `Set` with string keys, in insertion order.
use Prim.Native.String.{String}
use mathlib.Core.Path.{◌≡◌, refl}
use mathlib.Core.Bool.{Bool, false, ◌||◌}
use mathlib.Core.Option.{Option, none, some}
use mathlib.Core.List.{List, [], ◌∷◌}
use native.Mathlib.Omega.{arith}
use text.Mathlib.Text.{◌==◌}
use text.Mathlib.TextEquality.{eq_iff}
use live_ops_backend.Prelude.Tests.{if◌then◌else◌}
use live_ops_backend.Prelude.Lists.{includes}

abbrev pub Map : Type 0 → Type 0
Map V = List (String × V)

module _ {V : Type 0} where
  -- `m.get(k)`
  unfoldable pub get : Map V → String → Option V
  get [] k = none
  get ((j, v) ∷ m) k = if j == k then some v else get m k

  -- `m.set(k, v)`: an existing key keeps its place
  unfoldable pub set : Map V → String → V → Map V
  set [] k v = (k, v) ∷ []
  set ((j, w) ∷ m) k v = if j == k then (j, v) ∷ m else (j, w) ∷ set m k v

  -- `m.delete(k)`
  unfoldable pub delete : Map V → String → Map V
  delete [] k = []
  delete ((j, w) ∷ m) k = let rest = delete m k in if j == k then rest else (j, w) ∷ rest

  pub get-set :
      (m : Map V) (k : String) (v : V) (j : String)
      → get (set m k v) j ≡ (if k == j then some v else get m j)
  unfolding get set
  get-set [] k v j = refl
  get-set ((i, w) ∷ m) k v j = ground (arith, eq_iff k j, eq_iff i k, eq_iff i j, get-set m k v j)

  pub get-delete :
      (m : Map V) (k j : String) → get (delete m k) j ≡ (if k == j then none else get m j)
  unfolding get delete
  get-delete [] k j = ground arith
  get-delete ((i, w) ∷ m) k j = ground (arith, eq_iff k j, eq_iff i k, eq_iff i j, get-delete m k j)

  pub get-delete-some :
      (m : Map V) (k j : String) {v : V} → get (delete m k) j ≡ some v → get m j ≡ some v
  get-delete-some m k j h = ground (arith, h, get-delete m k j)

  pub get-empty : (k : String) → get [] k ≡ none
  unfolding get
  get-empty k = refl

-- `s.add(x)`
unfoldable pub add : List String → String → List String
add [] x = x ∷ []
add (y ∷ s) x = if y == x then y ∷ s else y ∷ add s x

-- `s.delete(x)`
unfoldable pub remove : List String → String → List String
remove [] x = []
remove (y ∷ s) x = let rest = remove s x in if y == x then rest else y ∷ rest

-- `s.has(x)`
abbrev pub has : List String → String → Bool
has s x = includes x s

pub has-add : (s : List String) (x y : String) → has (add s x) y ≡ (x == y || has s y)
unfolding add
has-add [] x y = ground arith
has-add (z ∷ s) x y = ground (arith, eq_iff z x, eq_iff z y, eq_iff x y, has-add s x y)

pub has-remove :
    (s : List String) (x y : String) → has (remove s x) y ≡ (if x == y then false else has s y)
unfolding remove
has-remove [] x y = ground arith
has-remove (z ∷ s) x y = ground (arith, eq_iff z x, eq_iff z y, eq_iff x y, has-remove s x y)
