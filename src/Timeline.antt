-- ===== src/Timeline.antt =====
-- The rundown of a production: src/timeline/timeline.service.ts. A block starts in three database
-- steps (find, complete what is active, mark), which other calls may come between. The regular
-- expression that reads a guest's name from the notes is a parameter.
pub mod Single
pub mod Order
pub mod Race
mod Tests
use live_ops_backend.Prelude.{
  ℕ, zero, suc, ◌+◌, ◌/◌, String, ◌==◌, Bool, true, false, not, ◌&&◌, List, [], ◌∷◌, Option, none,
  some, Outcome, ok, throw, not_found, bad_request, record_missing, if◌then◌else◌, eqb, M, ◌>>=◌,
  ◌>>◌, throw_if, require, return, writes, World, emit,
}
use live_ops_backend.Prelude.Table.{Table, update_row, delete_row}

pub data BlockStatus : Type 0 where
  pending active completed : BlockStatus

-- without the columns that no method reads: description, source and the intercom template
pub record TimelineBlock : Type 0 where
  pub id : String
  pub production_id : String
  pub title : String
  pub duration_ms : ℕ
  pub status : BlockStatus
  pub order : ℕ
  pub linked_scene : Option String
  pub notes : Option String
  pub start_time : Option ℕ
  pub end_time : Option ℕ

-- What an update carries: none for a field that is not sent.
pub record UpdateTimelineBlock : Type 0 where
  pub title : Option String
  pub duration_ms : Option ℕ
  pub order : Option ℕ
  pub linked_scene : Option String
  pub notes : Option String

-- `overlay.broadcast_data`; the duration is in seconds, none for the empty text
pub record ActiveBlock : Type 0 where
  pub title : String
  pub notes : String
  pub guest : String
  pub duration : Option ℕ

pub data Event : Type 0 where
  timeline_updated : String → Event
  block_started : String → String → Option String → Event
  overlay_data : String → ActiveBlock → Event
  audit_start audit_complete audit_reset : String → String → Event

abbrev pub is_active : BlockStatus → Bool
is_active BlockStatus.active = true
is_active _ = false

-- `where: { id, productionId }`
abbrev pub is_block : String → String → TimelineBlock → Bool
is_block id production_id b = b.id == id && b.production_id == production_id

-- `where: { productionId, status: 'ACTIVE' }`
abbrev pub is_active_in : String → TimelineBlock → Bool
is_active_in production_id b = b.production_id == production_id && is_active b.status

abbrev pub complete : ℕ → TimelineBlock → TimelineBlock
complete now b = record b { status = BlockStatus.completed; end_time = some now }

abbrev pub start : ℕ → TimelineBlock → TimelineBlock
start now b = record b { status = BlockStatus.active; start_time = some now; end_time = none }

abbrev pub reset : TimelineBlock → TimelineBlock
reset b = record b { status = BlockStatus.pending; start_time = none; end_time = none }

abbrev pub or_else {ℓ} : {A : Type ℓ} → Option A → A → A
or_else none a = a
or_else (some x) a = x

abbrev pub or_kept {ℓ} : {A : Type ℓ} → Option A → Option A → Option A
or_kept none a = a
or_kept (some x) a = some x

abbrev pub revise : UpdateTimelineBlock → TimelineBlock → TimelineBlock
revise dto b = record b {
  title = or_else dto.title b.title;
  duration_ms = or_else dto.duration_ms b.duration_ms;
  order = or_else dto.order b.order;
  linked_scene = or_kept dto.linked_scene b.linked_scene;
  notes = or_kept dto.notes b.notes;
}

-- the row of a new block: the columns' defaults where the request says nothing
abbrev pub new_block : String → String → String → UpdateTimelineBlock → TimelineBlock
new_block id production_id title dto = record {
  id = id;
  production_id = production_id;
  title = title;
  duration_ms = or_else dto.duration_ms 0;
  status = BlockStatus.pending;
  order = or_else dto.order 0;
  linked_scene = dto.linked_scene;
  notes = dto.notes;
  start_time = none;
  end_time = none;
}

-- `updated.durationMs ? … : ''`
abbrev pub shown_duration : ℕ → Option ℕ
shown_duration zero = none
shown_duration (suc n) = some (suc n / 1000)

module _ (guest_in : String → String) where
  abbrev pub active_block : TimelineBlock → ActiveBlock
  active_block b = record {
    title = b.title;
    notes = or_else b.notes "";
    guest = guest_in (or_else b.notes "");
    duration = shown_duration b.duration_ms;
  }

module _ (db : Table TimelineBlock) where
  abbrev pub find_block : String → String → M (World db.Store Event) TimelineBlock
  find_block id production_id w =
      require (db.find_first (is_block id production_id) w.db) (not_found "Block not found") w

  unfoldable pub create_block :
      String → String → String → UpdateTimelineBlock → M (World db.Store Event) TimelineBlock
  create_block id production_id title dto = do
    let block = new_block id production_id title dto
    writes (λ w. record w { db = db.create block w.db })
    emit (timeline_updated production_id)
    return block

  unfoldable pub update_block :
      String → String → UpdateTimelineBlock → M (World db.Store Event) TimelineBlock
  update_block id production_id dto = do
    find_block id production_id
    updated ← update_row db id (revise dto)
    emit (timeline_updated production_id)
    return updated

  unfoldable pub delete_block : String → String → M (World db.Store Event) (Unit {0})
  delete_block id production_id = do
    find_block id production_id
    delete_row db id
    emit (timeline_updated production_id)

  -- the updates of the transaction, from `index` on: none if one of them fails
  unfoldable pub reorder_from : ℕ → List String → db.Store → Option db.Store
  reorder_from index [] s = some s
  reorder_from index (id ∷ ids) s = elim (db.update id (λ b. record b { order = index }) s) [
    | none ↦ none
    | some (b, s') ↦ reorder_from (suc index) ids s'
  ]

  unfoldable pub reorder_blocks : String → List String → M (World db.Store Event) (Unit {0})
  unfolding reorder_from
  reorder_blocks production_id ids w = elim (reorder_from 0 ids w.db) [
    | none ↦ (throw record_missing, w)
    | some s ↦ emit (timeline_updated production_id) (record w { db = s })
  ]

  -- the three database steps of `startBlock`
  unfoldable pub begin_start : String → String → M (World db.Store Event) TimelineBlock
  begin_start id production_id = do
    block ← find_block id production_id
    throw_if (is_active block.status) (bad_request "Block is already active")
    return block

  unfoldable pub complete_active : ℕ → String → M (World db.Store Event) (Unit {0})
  complete_active now production_id =
      writes
        (λ w. record w { db = db.update_many (is_active_in production_id) (complete now) w.db })

  unfoldable pub mark_active : ℕ → String → M (World db.Store Event) TimelineBlock
  mark_active now id = update_row db id (start now)

  unfoldable pub start_block :
      (String → String) → ℕ → String → String → M (World db.Store Event) TimelineBlock
  unfolding begin_start complete_active mark_active
  start_block guest_in now id production_id = do
    block ← begin_start id production_id
    complete_active now production_id
    updated ← mark_active now id
    emit (block_started production_id block.id block.linked_scene)
    emit (audit_start production_id block.id)
    emit (overlay_data production_id (active_block guest_in updated))
    emit (timeline_updated production_id)
    return updated

  unfoldable pub complete_block : ℕ → String → String → M (World db.Store Event) TimelineBlock
  complete_block now id production_id = do
    block ← find_block id production_id
    updated ← update_row db id (complete now)
    emit (timeline_updated production_id)
    emit (audit_complete production_id block.id)
    return updated

  unfoldable pub reset_block : String → String → M (World db.Store Event) TimelineBlock
  reset_block id production_id = do
    block ← find_block id production_id
    updated ← update_row db id reset
    emit (timeline_updated production_id)
    emit (audit_reset production_id block.id)
    return updated
