-- ===== src/Automation/Condition/Legacy.antt =====
-- Flattening, and the old flat-map conditions as compound ones.
use live_ops_backend.Prelude.{String, ◌≡◌, refl, [], ◌∷◌, Option, none, some, arith, eq_iff}
use live_ops_backend.Prelude.Map.{Map, get, get-set, get-empty}
use live_ops_backend.Automation.Condition.{
  Numbers, Value, PayloadValue, scalar, other, Nodes, compound, simple, legacy, nil, cons, and_all,
  eq, compare_values, evaluate_legacy, evaluate_condition_node, flatten_payload, flatten_into,
  put_scalar,
}

module _ (n : Numbers) where
  open n use {Number}

  -- `{ k: v, … }` as `AND` of `k eq v`.
  abbrev pub modern : Map (Value Number) → Nodes Number
  modern [] = nil
  modern ((key, val) ∷ rest) = cons (simple key eq val) (modern rest)

  -- A legacy flat-map condition evaluates as the AND of its equations.
  pub legacy-modern :
      (m flat : Map (Value Number))
      → evaluate_condition_node n (legacy m) flat
        ≡ evaluate_condition_node n (compound and_all (modern m)) flat
  unfolding evaluate_condition_node evaluate_legacy compare_values
  legacy-modern [] flat = refl
  legacy-modern ((key, val) ∷ rest) flat = ground (arith, legacy-modern rest flat)

  -- Object keys are distinct.
  abbrev pub Distinct : Map (PayloadValue Number) → Type 0
  Distinct [] = Unit
  Distinct ((key, val) ∷ rest) = (get rest key ≡ none) × Distinct rest

  abbrev pub scalar_of : Option (PayloadValue Number) → Option (Value Number)
  scalar_of (some (scalar v)) = some v
  scalar_of _ = none

  abbrev or_else : Option (Value Number) → Option (Value Number) → Option (Value Number)
  or_else none d = d
  or_else (some v) d = some v

  flatten_into_lem :
      (m : Map (PayloadValue Number)) (flat : Map (Value Number)) (k : String)
      → Distinct m
      → get (flatten_into n m flat) k ≡ or_else (scalar_of (get m k)) (get flat k)
  unfolding flatten_into get
  flatten_into_lem [] flat k h = refl
  flatten_into_lem ((key, scalar v) ∷ rest) flat k h = ground (
    arith,
    flatten_into_lem rest (put_scalar n key (scalar v) flat) k h.1,
    get-set flat key v k,
    eq_iff key k,
  )
  flatten_into_lem ((key, other) ∷ rest) flat k h =
      ground (arith, flatten_into_lem rest flat k h.1, eq_iff key k)

  -- Flattening a payload with distinct keys keeps exactly its scalar entries.
  pub get-flatten_payload :
      (payload : Map (PayloadValue Number)) (k : String)
      → Distinct payload
      → get (flatten_payload n payload) k ≡ scalar_of (get payload k)
  unfolding flatten_payload
  get-flatten_payload payload k h =
      ground (arith, flatten_into_lem payload [] k h, get-empty {V = Value Number} k)
