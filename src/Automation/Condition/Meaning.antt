-- ===== src/Automation/Condition/Meaning.antt =====
-- What a condition means, as a relation, and when a rule's triggers fire.
use live_ops_backend.Prelude.{
  String, ◌==◌, ◌≡◌, refl, true, List, [], ◌∷◌, Option, none, some, arith, ◌↔◌, inl, inr,
  Bool-cases, In, here, there, eq_iff, filter,
}
use live_ops_backend.Prelude.Map.{Map, get}
use live_ops_backend.Automation.Condition.{
  Numbers, Value, PayloadValue, Node, Nodes, compound, simple, legacy, nil, cons, and_all, or_any,
  Trigger, ConditionOperator, found_eq, compare_values, evaluate_legacy, evaluate_condition_node,
  evaluate_every, evaluate_some, any_trigger, evaluate_triggers, flatten_payload, condition_holds,
}

module _ (n : Numbers) where
  open n use {Number}

  -- Every entry of a legacy map equals the payload's.
  abbrev pub Agrees : Map (Value Number) → Map (Value Number) → Type 0
  Agrees [] flat = Unit
  Agrees ((key, val) ∷ rest) flat = (found_eq n (get flat key) val ≡ true) × Agrees rest flat

  mutual
    pub data Holds (flat : Map (Value Number)) : Node Number → Type 0 where
      all_hold : {cs : Nodes Number} → HoldEach flat cs → Holds flat (compound and_all cs)
      one_holds : {cs : Nodes Number} → HoldsOne flat cs → Holds flat (compound or_any cs)
      compares :
          {field : String} {op : ConditionOperator} {v : Value Number}
          → compare_values n op (get flat field) v ≡ true
          → Holds flat (simple field op v)
      agrees : {entries : Map (Value Number)} → Agrees entries flat → Holds flat (legacy entries)

    pub data HoldEach (flat : Map (Value Number)) : Nodes Number → Type 0 where
      none_left : HoldEach flat nil
      and_rest :
          {c : Node Number} {cs : Nodes Number}
          → Holds flat c
          → HoldEach flat cs
          → HoldEach flat (cons c cs)

    pub data HoldsOne (flat : Map (Value Number)) : Nodes Number → Type 0 where
      this : {c : Node Number} {cs : Nodes Number} → Holds flat c → HoldsOne flat (cons c cs)
      later : {c : Node Number} {cs : Nodes Number} → HoldsOne flat cs → HoldsOne flat (cons c cs)

  legacy_sound : (m flat : Map (Value Number)) → evaluate_legacy n m flat ≡ true → Agrees m flat
  unfolding evaluate_legacy
  legacy_sound [] flat h = tt
  legacy_sound ((key, val) ∷ rest) flat h = (ground arith, legacy_sound rest flat (ground arith))

  legacy_complete : (m flat : Map (Value Number)) → Agrees m flat → evaluate_legacy n m flat ≡ true
  unfolding evaluate_legacy
  legacy_complete [] flat h = refl
  legacy_complete ((key, val) ∷ rest) flat h = ground (arith, legacy_complete rest flat h.1)

  mutual
    unfolding evaluate_condition_node

    node_sound :
        (c : Node Number) (flat : Map (Value Number))
        → evaluate_condition_node n c flat ≡ true
        → Holds flat c
    node_sound (compound and_all cs) flat h = all_hold (every_sound cs flat h)
    node_sound (compound or_any cs) flat h = one_holds (some_sound cs flat h)
    node_sound (simple field op v) flat h = compares h
    node_sound (legacy entries) flat h = agrees (legacy_sound entries flat h)

    every_sound :
        (cs : Nodes Number) (flat : Map (Value Number))
        → evaluate_every n cs flat ≡ true
        → HoldEach flat cs
    every_sound nil flat h = none_left
    every_sound (cons c cs) flat h =
        and_rest (node_sound c flat (ground arith)) (every_sound cs flat (ground arith))

    some_sound :
        (cs : Nodes Number) (flat : Map (Value Number))
        → evaluate_some n cs flat ≡ true
        → HoldsOne flat cs
    some_sound nil flat h = cc
    some_sound (cons c cs) flat h = elim (Bool-cases (evaluate_condition_node n c flat)) [
      | inl e ↦ this (node_sound c flat e)
      | inr e ↦ later (some_sound cs flat (rw e at h))
    ]

  mutual
    unfolding evaluate_condition_node

    node_complete :
        {flat : Map (Value Number)} {c : Node Number}
        → Holds flat c
        → evaluate_condition_node n c flat ≡ true
    node_complete (all_hold h) = every_complete h
    node_complete (one_holds h) = some_complete h
    node_complete (compares e) = e
    node_complete (agrees {entries} a) = legacy_complete entries _ a

    every_complete :
        {flat : Map (Value Number)} {cs : Nodes Number}
        → HoldEach flat cs
        → evaluate_every n cs flat ≡ true
    every_complete none_left = refl
    every_complete (and_rest h r) = ground (arith, node_complete h, every_complete r)

    some_complete :
        {flat : Map (Value Number)} {cs : Nodes Number}
        → HoldsOne flat cs
        → evaluate_some n cs flat ≡ true
    some_complete (this h) = ground (arith, node_complete h)
    some_complete (later r) = ground (arith, some_complete r)

  pub evaluate_condition_node_iff :
      (c : Node Number) (flat : Map (Value Number))
      → (evaluate_condition_node n c flat ≡ true) ↔ Holds flat c
  evaluate_condition_node_iff c flat = (node_sound c flat, node_complete)

  -- A trigger with no condition always fires.
  abbrev pub Met : Map (Value Number) → Option (Node Number) → Type 0
  Met flat none = Unit
  Met flat (some c) = Holds flat c

  -- A trigger of the event's type whose condition is met.
  pub record Fires (triggers : List (Trigger Number)) (event : String) (flat : Map (Value Number))
      : Type 0 where
    pub trigger : Trigger Number
    pub listed : In trigger triggers
    pub same : trigger.event_type ≡ event
    pub met : Met flat trigger.condition

  Met-sound :
      (flat : Map (Value Number)) (o : Option (Node Number))
      → condition_holds n o flat ≡ true
      → Met flat o
  Met-sound flat none h = tt
  Met-sound flat (some c) h = node_sound c flat h

  Met-complete :
      (flat : Map (Value Number)) (o : Option (Node Number))
      → Met flat o
      → condition_holds n o flat ≡ true
  Met-complete flat none h = refl
  Met-complete flat (some c) h = node_complete h

  Fires-cons :
      {t : Trigger Number} {ts : List (Trigger Number)} {event : String} {flat : Map (Value Number)}
      → Fires ts event flat
      → Fires (t ∷ ts) event flat
  Fires-cons f = record { trigger = f.trigger; listed = there f.listed; same = f.same; met = f.met }

  Fires-sound :
      (ts : List (Trigger Number)) (event : String) (flat : Map (Value Number))
      → any_trigger n (filter (λ t. t.event_type == event) ts) flat ≡ true
      → Fires ts event flat
  unfolding any_trigger
  Fires-sound [] event flat h = cc
  Fires-sound (t ∷ ts) event flat h = elim (Bool-cases (t.event_type == event)) [
    | inl e ↦ elim (Bool-cases (condition_holds n t.condition flat)) [
      | inl m ↦ record {
        trigger = t;
        listed = here;
        same = (eq_iff _ _).0 e;
        met = Met-sound flat t.condition m;
      }
      | inr m ↦ Fires-cons (Fires-sound ts event flat (ground arith))
    ]
    | inr e ↦ Fires-cons (Fires-sound ts event flat (ground arith))
  ]

  fires_complete :
      (ts : List (Trigger Number)) (t : Trigger Number) (event : String) (flat : Map (Value Number))
      → In t ts
      → t.event_type ≡ event
      → condition_holds n t.condition flat ≡ true
      → any_trigger n (filter (λ t. t.event_type == event) ts) flat ≡ true
  unfolding any_trigger
  fires_complete [] t event flat m e h = elim m [ ]
  fires_complete (t ∷ ts) t' event flat here e h = ground (arith, eq_iff t.event_type event)
  fires_complete (t ∷ ts) t' event flat (there m) e h =
      ground (arith, fires_complete ts t' event flat m e h)

  -- A rule's triggers fire exactly when one of them is of the event's type and its condition, if it
  -- has one, holds of the flattened payload.
  pub evaluate_triggers_iff :
      (ts : List (Trigger Number)) (event : String) (payload : Map (PayloadValue Number))
      → (evaluate_triggers n ts event payload ≡ true) ↔ Fires ts event (flatten_payload n payload)
  unfolding evaluate_triggers
  evaluate_triggers_iff ts event payload = (
    Fires-sound ts event (flatten_payload n payload),
    λ f.
        fires_complete ts f.trigger event (flatten_payload n payload) f.listed f.same
          (Met-complete _ f.trigger.condition f.met),
  )
