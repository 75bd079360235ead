-- ===== src/Automation/Condition.antt =====
-- Conditions of triggers: src/automation/automation-condition.evaluator.ts, with the condition types
-- of src/automation/dto/automation.dto.ts. JavaScript's numbers are a parameter: their type, with
-- the tests `===`, `<` and `<=`.
pub mod Meaning
pub mod Legacy
mod Tests
use text.Mathlib.Text.{find?}
use live_ops_backend.Prelude.{
  String, ◌==◌, Bool, true, false, not, ◌&&◌, ◌||◌, List, [], ◌∷◌, Option, none, some, is_some,
  if◌then◌else◌, filter,
}
use live_ops_backend.Prelude.Map.{Map, get, set}

pub record Numbers : Type 1 where
  pub Number : Type 0
  pub num_eq : Number → Number → Bool
  pub num_lt : Number → Number → Bool
  pub num_le : Number → Number → Bool

-- `ConditionValue`
pub data Value (N : Type 0) : Type 0 where
  str : String → Value N
  num : N → Value N
  bool : Bool → Value N
  null : Value N

-- `EventPayload`'s values: a `ConditionValue`, or a date, an object or undefined
pub data PayloadValue (N : Type 0) : Type 0 where
  scalar : Value N → PayloadValue N
  other : PayloadValue N

-- `ConditionOperator`; `unknown` is any other text in `op`
pub data ConditionOperator : Type 0 where
  eq neq gt gte lt lte contains unknown : ConditionOperator

pub data Junction : Type 0 where
  and_all or_any : Junction

-- `TriggerConditionNode`. A legacy map has neither the discriminating keys of a compound nor those
-- of a simple condition.
mutual
  pub data Node (N : Type 0) : Type 0 where
    compound : Junction → Nodes N → Node N
    simple : String → ConditionOperator → Value N → Node N
    legacy : Map (Value N) → Node N

  pub data Nodes (N : Type 0) : Type 0 where
    nil : Nodes N
    cons : Node N → Nodes N → Nodes N

abbrev pub bool_eq : Bool → Bool → Bool
bool_eq true b = b
bool_eq false b = not b

pub record Trigger (N : Type 0) : Type 0 where
  pub event_type : String
  pub condition : Option (Node N)

module _ (n : Numbers) where
  open n use {Number, num_eq, num_lt, num_le}

  -- `===` on condition values
  abbrev pub value_eq : Value Number → Value Number → Bool
  value_eq (str a) (str b) = a == b
  value_eq (num a) (num b) = num_eq a b
  value_eq (bool a) (bool b) = bool_eq a b
  value_eq null null = true
  value_eq _ _ = false

  -- `payload[field] === value`, where an absent key is undefined
  abbrev pub found_eq : Option (Value Number) → Value Number → Bool
  found_eq none v = false
  found_eq (some a) v = value_eq a v

  abbrev pub both_numbers : (Number → Number → Bool) → Option (Value Number) → Value Number → Bool
  both_numbers test (some (num a)) (num b) = test a b
  both_numbers test _ _ = false

  abbrev pub both_strings : (String → String → Bool) → Option (Value Number) → Value Number → Bool
  both_strings test (some (str a)) (str b) = test a b
  both_strings test _ _ = false

  -- the `switch` of `evaluateConditionNode`
  unfoldable pub compare_values : ConditionOperator → Option (Value Number) → Value Number → Bool
  compare_values eq a v = found_eq a v
  compare_values neq a v = not (found_eq a v)
  compare_values gt a v = both_numbers (λ x y. num_lt y x) a v
  compare_values gte a v = both_numbers (λ x y. num_le y x) a v
  compare_values lt a v = both_numbers num_lt a v
  compare_values lte a v = both_numbers num_le a v
  compare_values contains a v = both_strings (λ x y. is_some (find? x y)) a v
  compare_values unknown a v = false

  -- `Object.entries(legacy).every(…)`
  unfoldable pub evaluate_legacy : Map (Value Number) → Map (Value Number) → Bool
  evaluate_legacy [] payload = true
  evaluate_legacy ((key, val) ∷ rest) payload =
      found_eq (get payload key) val && evaluate_legacy rest payload

  unfoldable mutual
    pub evaluate_condition_node : Node Number → Map (Value Number) → Bool
    evaluate_condition_node (compound and_all cs) payload = evaluate_every cs payload
    evaluate_condition_node (compound or_any cs) payload = evaluate_some cs payload
    evaluate_condition_node (simple field op v) payload = compare_values op (get payload field) v
    evaluate_condition_node (legacy entries) payload = evaluate_legacy entries payload

    pub evaluate_every : Nodes Number → Map (Value Number) → Bool
    evaluate_every nil payload = true
    evaluate_every (cons c cs) payload =
        evaluate_condition_node c payload && evaluate_every cs payload

    pub evaluate_some : Nodes Number → Map (Value Number) → Bool
    evaluate_some nil payload = false
    evaluate_some (cons c cs) payload =
        evaluate_condition_node c payload || evaluate_some cs payload

  abbrev pub put_scalar : String → PayloadValue Number → Map (Value Number) → Map (Value Number)
  put_scalar key (scalar v) flat = set flat key v
  put_scalar key other flat = flat

  -- the loop of `flattenPayload`
  pub flatten_into : Map (PayloadValue Number) → Map (Value Number) → Map (Value Number)
  flatten_into [] flat = flat
  flatten_into ((key, val) ∷ rest) flat = flatten_into rest (put_scalar key val flat)

  unfoldable pub flatten_payload : Map (PayloadValue Number) → Map (Value Number)
  unfolding flatten_into
  flatten_payload payload = flatten_into payload []

  abbrev pub condition_holds : Option (Node Number) → Map (Value Number) → Bool
  condition_holds none flat = true
  condition_holds (some node) flat = evaluate_condition_node node flat

  -- the loop over the matching triggers
  unfoldable pub any_trigger : List (Trigger Number) → Map (Value Number) → Bool
  any_trigger [] flat = false
  any_trigger (t ∷ ts) flat = condition_holds t.condition flat || any_trigger ts flat

  unfoldable pub evaluate_triggers :
      List (Trigger Number) → String → Map (PayloadValue Number) → Bool
  unfolding any_trigger flatten_payload
  evaluate_triggers triggers event_prefix payload =
      any_trigger (filter (λ t. t.event_type == event_prefix) triggers) (flatten_payload payload)
