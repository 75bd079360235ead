-- ===== src/Automation/Dispatch/Selected.antt =====
-- Only rules of the event's own production run, and exactly those that the event asks for.
use live_ops_backend.Prelude.{
  String, ◌==◌, ◌≡◌, Bool, true, ◌&&◌, List, [], ◌∷◌, ◌++◌, Option, none, some, arith, eq_iff,
  filter, Bool-cases, Option-cases, inl, inr, In, here, there, All, find-satisfies, sym, ◌∙◌, any,
  In→any, ok,
}
use live_ops_backend.Prelude.Map.{Map, get}
use live_ops_backend.Prelude.Table.{Table}
use live_ops_backend.Automation.Condition.{Numbers, PayloadValue, Trigger, evaluate_triggers}
use live_ops_backend.Automation.Condition.Meaning.{evaluate_triggers_iff}
use live_ops_backend.Automation.Dispatch.{
  StoredRule, Execution, text_of, is_candidate, named_rule, of_production, matching, by_rules,
  handle_event, execute_rule_by_id, or_not_found,
}

module _ (n : Numbers) (db : Table (StoredRule n.Number)) (rules : db.Store) where
  open n use {Number}

  abbrev pub OfProduction : String → Execution → Type 0
  OfProduction production_id x = x.rule.production_id ≡ production_id

  All-++ :
      (P : Execution → Type 0) (xs ys : List Execution) → All P xs → All P ys → All P (xs ++ ys)
  All-++ P [] ys h k = k
  All-++ P (x ∷ xs) ys h k = (h.0, All-++ P xs ys h.1 k)

  matching-OfProduction :
      (pid event : String) (payload : Map (PayloadValue Number)) (is_manual : Bool)
      (rs : List (StoredRule Number))
      → All (OfProduction pid) (
          matching n db rules is_manual event payload
            (filter (is_candidate n db rules pid event) rs))
  unfolding matching
  matching-OfProduction pid event payload is_manual [] = tt
  matching-OfProduction pid event payload is_manual (r ∷ rs) =
      ground (
        arith,
        eq_iff r.rule.production_id pid,
        matching-OfProduction pid event payload is_manual rs,
      )

  of_production-some :
      (pid : String) (o : Option (StoredRule Number)) {r : StoredRule Number}
      → of_production n db rules pid o ≡ some r
      → r.rule.production_id ≡ pid
  of_production-some pid none e = cc
  of_production-some pid (some q) {r} e = ground (arith, eq_iff q.rule.production_id pid)

  named_rule-some :
      (pid : String) (id : Option String) {r : StoredRule Number}
      → named_rule n db rules pid id ≡ some r
      → r.rule.production_id ≡ pid
  named_rule-some pid none e = cc
  named_rule-some pid (some i) e = of_production-some pid _ e

  by_rules-OfProduction :
      (event : String) (payload : Map (PayloadValue Number)) (pid : String) (id : Option String)
      → All
          (OfProduction pid)
          (by_rules n db rules event payload pid (named_rule n db rules pid id))
  by_rules-OfProduction event payload pid id = elim (Option-cases (named_rule n db rules pid id)) [
    | inl e ↦
        rw (e, db.find_many-rows)
          (All-++ (OfProduction pid) _ _
            (matching-OfProduction pid event payload (event == "manual.trigger") (db.rows rules))
            (ground arith))
    | inr (r, e) ↦ rw e (named_rule-some pid id e, tt)
  ]

  -- Whatever the event and its payload, only rules of the payload's production run.
  pub handle_event-OfProduction :
      (event pid : String) (payload : Map (PayloadValue Number))
      → text_of n (get payload "productionId") ≡ some pid
      → All (OfProduction pid) (handle_event n db rules event payload)
  unfolding handle_event
  handle_event-OfProduction event pid payload h =
      rw h (by_rules-OfProduction event payload pid (text_of n (get payload "ruleId")))

  typed :
      (ts : List (Trigger Number)) (event : String) (payload : Map (PayloadValue Number))
      → evaluate_triggers n ts event payload ≡ true
      → any (λ (t : Trigger Number). t.event_type == event) ts ≡ true
  typed ts event payload h =
      let f = (evaluate_triggers_iff n ts event payload).0 h in
      In→any (λ (t : Trigger Number). t.event_type == event) ts f.trigger f.listed
        ((eq_iff _ _).1 f.same)

  matching-In :
      (pid event : String) (payload : Map (PayloadValue Number)) (m : Bool)
      (rs : List (StoredRule Number)) (r : StoredRule Number)
      → In r rs
      → is_candidate n db rules pid event r ≡ true
      → evaluate_triggers n r.triggers event payload ≡ true
      → In
          (record { rule = r.rule; is_manual = m })
          (matching n db rules m event payload (filter (is_candidate n db rules pid event) rs))
  unfolding matching
  matching-In pid event payload m [] r i c t = elim i [ ]
  matching-In pid event payload m (q ∷ rs) q' here c t = rw (c, t) here
  matching-In pid event payload m (q ∷ rs) r (there i) c t =
      let later = matching-In pid event payload m rs r i c t in
      elim (Bool-cases (is_candidate n db rules pid event q)) [
        | inl e ↦ elim (Bool-cases (evaluate_triggers n q.triggers event payload)) [
          | inl f ↦ rw (e, f) (there later)
          | inr f ↦ rw (e, f) later
        ]
        | inr e ↦ rw e later
      ]

  In-append : (x : Execution) (xs ys : List Execution) → In x xs → In x (xs ++ ys)
  In-append x [] ys i = elim i [ ]
  In-append x (y ∷ xs) ys here = here
  In-append x (y ∷ xs) ys (there i) = there (In-append x xs ys i)

  -- An enabled rule of the production runs when its triggers fire, unless the payload names a rule.
  pub handle_event_complete :
      (event pid : String) (payload : Map (PayloadValue Number)) (r : StoredRule Number)
      → text_of n (get payload "productionId") ≡ some pid
      → text_of n (get payload "ruleId") ≡ none
      → In r (db.rows rules)
      → r.rule.production_id ≡ pid
      → r.rule.is_enabled ≡ true
      → evaluate_triggers n r.triggers event payload ≡ true
      → In
          (record { rule = r.rule; is_manual = event == "manual.trigger" })
          (handle_event n db rules event payload)
  unfolding handle_event
  handle_event_complete event pid payload r p none_named i same on t =
      rw (p, none_named, db.find_many-rows)
        (In-append _ _ _ (
          matching-In pid event payload (event == "manual.trigger") (db.rows rules) r i
            (ground
              (arith, (eq_iff r.rule.production_id pid).1 same, typed r.triggers event payload t))
            t))

  -- A rule that runs by its id is the one with that id, in that production.
  pub execute_rule_by_id_sound :
      (id pid : String) (x : Execution)
      → execute_rule_by_id n db rules id pid ≡ ok x
      → (x.rule.id ≡ id) × (x.rule.production_id ≡ pid) × (x.is_manual ≡ true)
  unfolding execute_rule_by_id
  execute_rule_by_id_sound id pid x h =
      elim (Option-cases
        (db.find_first (λ r. r.rule.id == id && r.rule.production_id == pid) rules)) [
          | inl e ↦ absurd (cc (rw (e, or_not_found) at h))
          | inr (r, e) ↦
              let (m, good) =
                find-satisfies
                  (λ (r : StoredRule Number). r.rule.id == id && r.rule.production_id == pid)
                  (db.rows rules) (sym (db.find_first-rows _ _) ∙ e) in
              ground (arith, good, eq_iff r.rule.id id, eq_iff r.rule.production_id pid)
        ]
