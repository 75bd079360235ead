-- ===== src/Automation/Dispatch.antt =====
-- Which rules an event runs: `handleEvent`, `handleHardwareTrigger` and `executeRuleById` of
-- src/automation/automation-engine.service.ts. The rules come from the database, a parameter; what
-- is returned are the calls of `executeActions`, in order.
pub mod Selected
mod Tests
use live_ops_backend.Prelude.{
  String, ◌==◌, Bool, true, false, not, ◌&&◌, List, [], ◌∷◌, ◌++◌, Option, none, some,
  if◌then◌else◌, any, find, Outcome, ok, throw, not_found,
}
use live_ops_backend.Prelude.Map.{Map, get}
use live_ops_backend.Prelude.Table.{Table}
use live_ops_backend.Automation.Condition.{
  Numbers, Value, str, PayloadValue, scalar, Trigger, evaluate_triggers,
}
use live_ops_backend.Automation.Engine.{Action, Rule}

-- `RuleWithActions`
pub record StoredRule (N : Type 0) : Type 0 where
  pub rule : Rule
  pub triggers : List (Trigger N)

-- a call of `executeActions`, and whether its context has `isManual`
pub record Execution : Type 0 where
  pub rule : Rule
  pub is_manual : Bool

pub record HardwareMapping : Type 0 where
  pub id : String
  pub production_id : String
  pub map_key : String
  pub rule_id : String

-- `dummyRule`
abbrev pub instant_clip_rule : String → Rule
instant_clip_rule production_id = record {
  id = "manual-trigger";
  production_id = production_id;
  name = "Manual Instant Clip";
  is_enabled = true;
  actions = record { id = "dummy-action"; action_type = "engine.instantClip"; delay_ms = 0 } ∷ [];
}

module _ (n : Numbers) where
  open n use {Number}

  -- a text of the payload that is not empty, as a condition reads it
  abbrev pub text_of : Option (PayloadValue Number) → Option String
  text_of (some (scalar (str s))) = if s == "" then none else some s
  text_of _ = none

  abbrev pub is_text : Option (PayloadValue Number) → String → Bool
  is_text (some (scalar (str s))) t = s == t
  is_text _ t = false

  module _ (db : Table (StoredRule Number)) (rules : db.Store) where
    abbrev pub same_rule : String → StoredRule Number → Bool
    same_rule id r = r.rule.id == id

    -- the `where` of the rules of an event
    abbrev pub is_candidate : String → String → StoredRule Number → Bool
    is_candidate production_id event r =
        r.rule.production_id == production_id
        && (r.rule.is_enabled && any (λ (t : Trigger Number). t.event_type == event) r.triggers)

    abbrev pub of_production : String → Option (StoredRule Number) → Option (StoredRule Number)
    of_production production_id none = none
    of_production production_id (some r) =
        if r.rule.production_id == production_id then some r else none

    -- the rule that `payload.ruleId` names, if it is of this production
    abbrev pub named_rule : String → Option String → Option (StoredRule Number)
    named_rule production_id none = none
    named_rule production_id (some id) =
        of_production production_id (db.find_first (same_rule id) rules)

    -- the loop over the rules of the event
    pub matching :
        Bool → String → Map (PayloadValue Number) → List (StoredRule Number) → List Execution
    matching is_manual event payload [] = []
    matching is_manual event payload (r ∷ rs) =
        let rest = matching is_manual event payload rs in
        if evaluate_triggers n r.triggers event payload
        then record { rule = r.rule; is_manual = is_manual } ∷ rest
        else rest

    abbrev pub direct_clip : String → Bool → List Execution
    direct_clip production_id wanted =
        if wanted
        then record { rule = instant_clip_rule production_id; is_manual = true } ∷ []
        else []

    abbrev pub by_rules :
        String → Map (PayloadValue Number) → String → Option (StoredRule Number) → List Execution
    by_rules event payload production_id (some r) = record { rule = r.rule; is_manual = true } ∷ []
    by_rules event payload production_id none =
        matching (event == "manual.trigger") event payload
          (db.find_many (is_candidate production_id event) rules)
        ++ direct_clip production_id
            (event == "manual.trigger" && is_text (get payload "actionType") "engine.instantClip")

    abbrev pub for_production : String → Map (PayloadValue Number) → Option String → List Execution
    for_production event payload none = []
    for_production event payload (some production_id) =
        by_rules event payload production_id
          (named_rule production_id (text_of (get payload "ruleId")))

    unfoldable pub handle_event : String → Map (PayloadValue Number) → List Execution
    unfolding matching
    handle_event event payload = for_production event payload (text_of (get payload "productionId"))

    abbrev pub if_enabled : Option (StoredRule Number) → List Execution
    if_enabled none = []
    if_enabled (some r) =
        if r.rule.is_enabled then record { rule = r.rule; is_manual = false } ∷ [] else []

    abbrev pub mapped_rule : Option HardwareMapping → Option (StoredRule Number)
    mapped_rule none = none
    mapped_rule (some m) = db.find_first (same_rule m.rule_id) rules

    unfoldable pub handle_hardware_trigger :
        (String → String → Option HardwareMapping) → String → String → List Execution
    handle_hardware_trigger find_mapping production_id map_key =
        if_enabled (mapped_rule (find_mapping production_id map_key))

    abbrev pub or_not_found : Option (StoredRule Number) → Outcome Execution
    or_not_found none = throw (not_found "Rule not found")
    or_not_found (some r) = ok (record { rule = r.rule; is_manual = true })

    unfoldable pub execute_rule_by_id : String → String → Outcome Execution
    execute_rule_by_id id production_id =
        or_not_found
          (db.find_first (λ r. r.rule.id == id && r.rule.production_id == production_id) rules)
