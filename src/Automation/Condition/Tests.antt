-- ===== src/Automation/Condition/Tests.antt =====
-- A compound condition on a concrete payload; instances of the theorems about conditions.
use live_ops_backend.Prelude.{ℕ, ◌≡◌, refl, true, List, [], ◌∷◌, none, some, ◌↔◌, ltb, leb, eqb}
use live_ops_backend.Prelude.Map.{Map, get, set}
use live_ops_backend.Automation.Condition.{
  Numbers, str, num, PayloadValue, scalar, other, Node, compound, simple, nil, cons, and_all,
  or_any, gte, contains, Trigger, compare_values, evaluate_condition_node, evaluate_triggers,
  flatten_payload,
}
use live_ops_backend.Automation.Condition.Meaning.{
  Holds, Fires, evaluate_condition_node_iff, evaluate_triggers_iff,
}

-- Non-negative integers, which JavaScript compares as they are.
abbrev naturals : Numbers
naturals = record { Number = ℕ; num_eq = eqb; num_lt = ltb; num_le = leb }

abbrev low_volume : Node ℕ
low_volume = compound or_any (
    cons (simple "level" gte (num 80))
      (cons (compound and_all (cons (simple "scene" contains (str "Intro")) nil)) nil))

abbrev payload : Map (PayloadValue ℕ)
payload =
    ("productionId", scalar (str "p1"))
    ∷ ("scene", scalar (str "The Intro"))
    ∷ ("at", other)
    ∷ ("level", scalar (num 79))
    ∷ []

abbrev triggers : List (Trigger ℕ)
triggers =
    record { event_type = "a"; condition = none }
    ∷ record { event_type = "obs.scene_changed"; condition = some low_volume }
    ∷ []

fires : evaluate_triggers naturals triggers "obs.scene_changed" payload ≡ true
unfolding evaluate_triggers evaluate_condition_node compare_values get set
fires = refl

evaluate_condition_node_iff_example :
    (evaluate_condition_node naturals low_volume [] ≡ true) ↔ Holds naturals [] low_volume
evaluate_condition_node_iff_example = evaluate_condition_node_iff naturals low_volume []

evaluate_triggers_iff_example :
    (evaluate_triggers naturals triggers "obs.scene_changed" payload ≡ true)
    ↔ Fires naturals triggers "obs.scene_changed" (flatten_payload naturals payload)
evaluate_triggers_iff_example = evaluate_triggers_iff naturals triggers "obs.scene_changed" payload
