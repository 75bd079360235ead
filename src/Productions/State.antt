-- ===== src/Productions/State.antt =====
-- Changing a production's status: src/productions/productions-state.service.ts. `findFirst` and
-- `update` are Prisma's, a parameter.
pub mod Ready
pub mod Update
use live_ops_backend.Prelude.{
  String, ◌==◌, Bool, true, false, ◌&&◌, List, Option, none, some, ℕ, if◌then◌else◌, any, is_some,
  not, M, Exception, bad_request, not_found, Outcome, ok, throw, ◌>>=◌, ◌>>◌, throw_if, require,
  return, World, emit,
}
use live_ops_backend.Prelude.Table.{Table, update_row}
use live_ops_backend.Productions.Transition.{ProductionStatus, name, assert_valid_transition}

-- `EngineType` of src/productions/dto/production.dto.ts
pub data EngineType : Type 0 where
  obs vmix app : EngineType

-- the columns that the service reads, with `include`d connections by their `isEnabled`
pub record Production : Type 0 where
  pub id : String
  pub status : ProductionStatus
  pub engine_type : EngineType
  pub is_rehearsal : Bool
  pub deleted_at : Option ℕ
  pub obs_connections : List Bool
  pub vmix_connection : Option Bool

pub data Event : Type 0 where
  production_updated : String → Event
  -- the audit entry PRODUCTION_STATE_CHANGE, with `from` and `to`
  state_change : String → ProductionStatus → ProductionStatus → Event

-- `where: { id, deletedAt: null }`
abbrev pub is_live : String → Production → Bool
is_live id p = p.id == id && not (is_some p.deleted_at)

abbrev pub is_active : ProductionStatus → Bool
is_active ProductionStatus.active = true
is_active _ = false

abbrev pub is_archived : ProductionStatus → Bool
is_archived ProductionStatus.archived = true
is_archived _ = false

abbrev pub enabled : Option Bool → Bool
enabled none = false
enabled (some b) = b

abbrev pub validate_engine_for : EngineType → Production → Outcome (Unit {0})
validate_engine_for obs p =
    if any (λ b. b) p.obs_connections
    then ok tt
    else throw (
        bad_request
          "No se puede activar la producción: no hay conexión OBS habilitada. Configura una conexión OBS antes de ir en vivo.")
validate_engine_for vmix p =
    if enabled p.vmix_connection
    then ok tt
    else throw (
        bad_request
          "No se puede activar la producción: no hay conexión vMix habilitada. Configura una conexión vMix antes de ir en vivo.")
validate_engine_for app p = ok tt

unfoldable pub validate_engine_connection : Production → Outcome (Unit {0})
validate_engine_connection p = validate_engine_for p.engine_type p

abbrev pub lift : {S A : Type 0} → Outcome A → M S A
lift o s = (o, s)

abbrev pub with_status : ProductionStatus → Production → Production
with_status t p = record p { status = t }

module _ (db : Table Production) where
  abbrev pub find_production : String → M (World db.Store Event) (Option Production)
  find_production id w = (ok (db.find_first (is_live id) w.db), w)

  unfoldable pub update_state : String → ProductionStatus → M (World db.Store Event) Production
  update_state id status = do
    found ← find_production id
    production ← require found (not_found "Production not found")
    lift (assert_valid_transition (name production.status) (name status))
    if is_active status then lift (validate_engine_connection production) else return tt
    updated ← update_row db id (with_status status)
    emit (production_updated id)
    emit (state_change id production.status updated.status)
    return updated

  unfoldable pub toggle_rehearsal : String → Bool → M (World db.Store Event) Production
  toggle_rehearsal id enable = do
    found ← find_production id
    production ← require found (not_found "Production not found")
    throw_if (enable && is_archived production.status)
        (bad_request "No se puede habilitar ensayo en una producción archivada.")
    update_row db id (λ p. record p { is_rehearsal = enable })
