-- ===== src/Automation/Dispatch/Tests.antt =====
-- One rule and two events; instances of the theorems about what an event runs.
use live_ops_backend.Prelude.{ℕ, ◌≡◌, refl, true, false, [], ◌∷◌, some, ltb, leb, eqb}
use live_ops_backend.Prelude.Map.{Map, get, set}
use live_ops_backend.Prelude.Table.{Table, list_table}
use live_ops_backend.Automation.Condition.{
  Numbers, str, PayloadValue, scalar, simple, eq, compare_values, evaluate_condition_node,
  evaluate_triggers,
}
use live_ops_backend.Automation.Dispatch.{StoredRule, handle_event, handle_hardware_trigger}

abbrev naturals : Numbers
naturals = record { Number = ℕ; num_eq = eqb; num_lt = ltb; num_le = leb }

abbrev table : Table (StoredRule ℕ)
table = list_table (λ r. r.rule.id)

abbrev on_intro : StoredRule ℕ
on_intro = record {
  rule = record {
    id = "r1";
    production_id = "p1";
    name = "Intro";
    is_enabled = true;
    actions = [];
  };
  triggers =
      record {
        event_type = "obs.scene_changed";
        condition = some (simple "scene" eq (str "Intro"));
      }
      ∷ [];
}

abbrev payload : Map (PayloadValue ℕ)
payload = ("productionId", scalar (str "p1")) ∷ ("scene", scalar (str "Intro")) ∷ []

runs_once :
    handle_event naturals table (on_intro ∷ []) "obs.scene_changed" payload
    ≡ record { rule = on_intro.rule; is_manual = false } ∷ []
unfolding handle_event evaluate_triggers evaluate_condition_node compare_values get set
runs_once = refl

hardware :
    handle_hardware_trigger naturals table
      (on_intro ∷ [])
      (λ p k. some (record { id = "m"; production_id = p; map_key = k; rule_id = "r1" }))
      "p1"
      "key"
    ≡ record { rule = on_intro.rule; is_manual = false } ∷ []
unfolding handle_hardware_trigger
hardware = refl
