-- ===== src/Productions/Transition/Legal.antt =====
-- The diagram of production states, and that the table of transitions is exactly it.
use live_ops_backend.Prelude.{
  String, ◌==◌, ◌≢◌, ◌≡◌, refl, none, arith, eq_iff, ok, ◌↔◌, ◌⊎◌, inl, inr, Bool-cases, ap, sym,
  subst, ◌∙◌, if◌then◌else◌,
}
use live_ops_backend.Prelude.Map.{get}
use live_ops_backend.Productions.Transition.{
  allowed_transitions, ProductionStatus, setup, active, archived, draft, name,
  assert_valid_transition,
}

infix 40 ◌⟶◌
pub data ◌⟶◌ : ProductionStatus → ProductionStatus → Type 0 where
  prepare : draft ⟶ setup
  discard : draft ⟶ archived
  go_live : setup ⟶ active
  back : setup ⟶ draft
  wrap : active ⟶ archived

-- Either `from` is not in the table, or it is a status.
known :
    (from : String)
    → (get allowed_transitions from ≡ none) ⊎ ((s : ProductionStatus) × (from ≡ name s))
unfolding get
known from = elim (Bool-cases (name draft == from)) [
  | inl e ↦ inr (draft, sym ((eq_iff _ _).0 e))
  | inr ne₁ ↦ elim (Bool-cases (name setup == from)) [
    | inl e ↦ inr (setup, sym ((eq_iff _ _).0 e))
    | inr ne₂ ↦ elim (Bool-cases (name active == from)) [
      | inl e ↦ inr (active, sym ((eq_iff _ _).0 e))
      | inr ne₃ ↦ elim (Bool-cases (name archived == from)) [
        | inl e ↦ inr (archived, sym ((eq_iff _ _).0 e))
        | inr ne₄ ↦ inl (rw (ne₁, ne₂, ne₃, ne₄))
      ]
    ]
  ]
]

-- What the table lists for a status are the ends of its arrows.
listed :
    (s : ProductionStatus) (to : String)
    → assert_valid_transition (name s) to ≡ ok tt
    → (t : ProductionStatus) × (to ≡ name t) × (s ⟶ t)
unfolding assert_valid_transition get
listed draft to h = elim (Bool-cases (name setup == to)) [
  | inl e ↦ (setup, sym ((eq_iff _ _).0 e), prepare)
  | inr ne ↦ (archived, ground (arith, eq_iff (name archived) to), discard)
]
listed setup to h = elim (Bool-cases (name active == to)) [
  | inl e ↦ (active, sym ((eq_iff _ _).0 e), go_live)
  | inr ne ↦ (draft, ground (arith, eq_iff (name draft) to), back)
]
listed active to h = (archived, ground (arith, eq_iff (name archived) to), wrap)
listed archived to h = cc

unknown :
    (from to : String)
    → get allowed_transitions from ≡ none
    → assert_valid_transition from to ≢ ok tt
unfolding assert_valid_transition
unknown from to e h = cc (rw (e, assert_valid_transition) at h)

pub assert_valid_transition_sound :
    (from to : String)
    → assert_valid_transition from to ≡ ok tt
    → (s : ProductionStatus) × (t : ProductionStatus) × (from ≡ name s) × (to ≡ name t) × (s ⟶ t)
assert_valid_transition_sound from to h = elim (known from) [
  | inl absent ↦ absurd (unknown from to absent h)
  | inr (s, e) ↦ let (t, e', step) = listed s to (rw e at h) in (s, t, e, e', step)
]

pub ⟶-assert_valid_transition :
    {s t : ProductionStatus} → s ⟶ t → assert_valid_transition (name s) (name t) ≡ ok tt
unfolding assert_valid_transition get
⟶-assert_valid_transition prepare = refl
⟶-assert_valid_transition discard = refl
⟶-assert_valid_transition go_live = refl
⟶-assert_valid_transition back = refl
⟶-assert_valid_transition wrap = refl

of_name : String → ProductionStatus
of_name s =
    if s == "SETUP"
    then setup
    else if s == "ACTIVE"
    then active
    else if s == "ARCHIVED"
    then archived
    else draft

of_name-name : (s : ProductionStatus) → of_name (name s) ≡ s
unfolding of_name
of_name-name setup = refl
of_name-name active = refl
of_name-name archived = refl
of_name-name draft = refl

pub name-injective : (s t : ProductionStatus) → name s ≡ name t → s ≡ t
name-injective s t h = sym (of_name-name s) ∙ ap of_name h ∙ of_name-name t

-- Between two statuses the check passes exactly for the arrows of the diagram.
pub assert_valid_transition_iff :
    (s t : ProductionStatus) → (assert_valid_transition (name s) (name t) ≡ ok tt) ↔ (s ⟶ t)
assert_valid_transition_iff s t = (to, ⟶-assert_valid_transition)
  where
    to : assert_valid_transition (name s) (name t) ≡ ok tt → s ⟶ t
    to h =
        let (t', e, step) = listed s (name t) h in
        subst (λ u. s ⟶ u) (name-injective t' t (sym e)) step
