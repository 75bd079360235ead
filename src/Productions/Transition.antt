-- ===== src/Productions/Transition.antt =====
-- The status machine of a production: src/productions/production-state.machine.ts.
pub mod Legal
use Prim.Native.String
use live_ops_backend.Prelude.{
  String, ◌==◌, Bool, List, [], ◌∷◌, Option, none, some, Outcome, ok, throw, bad_request, includes,
  if◌then◌else◌,
}
use live_ops_backend.Prelude.Map.{Map, get}

-- `ProductionStatus` of src/productions/dto/production.dto.ts
pub data ProductionStatus : Type 0 where
  setup active archived draft : ProductionStatus

-- the enum's string values
abbrev pub name : ProductionStatus → String
name setup = "SETUP"
name active = "ACTIVE"
name archived = "ARCHIVED"
name draft = "DRAFT"

-- `ALLOWED_TRANSITIONS`
abbrev pub allowed_transitions : Map (List String)
allowed_transitions =
    (name draft, name setup ∷ name archived ∷ [])
    ∷ (name setup, name active ∷ name draft ∷ [])
    ∷ (name active, name archived ∷ [])
    ∷ (name archived, [])
    ∷ []

infixl 65 ◌<>◌
abbrev pub ◌<>◌ : String → String → String
a <> b = String.◌++◌ a b

-- `xs.join(', ')`
abbrev pub join : List String → String
join [] = ""
join (x ∷ []) = x
join (x ∷ xs) = x <> ", " <> join xs

abbrev pub explain : String → List String → String
explain from [] = from <> " es un estado terminal — no se puede cambiar."
explain from allowed = "Estados permitidos desde " <> from <> ": " <> join allowed

unfoldable pub assert_valid_transition : String → String → Outcome (Unit {0})
assert_valid_transition from to = elim (get allowed_transitions from) [
  | none ↦ throw (bad_request ("Unknown production status: \"" <> from <> "\""))
  | some allowed ↦
      if includes to allowed
      then ok tt
      else throw (
          bad_request (
            "Transición de estado inválida: "
            <> from
            <> " → "
            <> to
            <> ". "
            <> explain from allowed))
]
