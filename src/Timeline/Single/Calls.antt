-- ===== src/Timeline/Single/Calls.antt =====
-- The calls of one production, one after another, and what they keep.
use live_ops_backend.Prelude.{
  ℕ, String, ◌==◌, ◌≡◌, List, [], ◌∷◌, some, arith, sym, ap, ◌∙◌, subst, ok, World, Option-cases,
  Bool-cases, inl, inr, update_where,
}
use live_ops_backend.Prelude.Table.{Table, update-rows, update-row, update-row}
use live_ops_backend.Timeline.{
  TimelineBlock, UpdateTimelineBlock, BlockStatus, Event, is_block, is_active, is_active_in,
  complete, start, create_block, update_block, delete_block, reorder_blocks, start_block,
  complete_block, reset_block,
}
use live_ops_backend.Timeline.Single.{
  OnlyActive, update_where-OnlyActive, started-OnlyActive, complete-IsQuiet,
}
use live_ops_backend.Timeline.Single.Writes.{
  Single, update_block-Single, complete_block-Single, reset_block-Single, create_block-Single,
  reorder_blocks-Single, delete_block-Single,
}

pub data Call : Type 0 where
  -- the id of the new block, its title and the rest of the request
  creating : String → String → UpdateTimelineBlock → Call
  updating : String → UpdateTimelineBlock → Call
  deleting : String → Call
  reordering : List String → Call
  -- at a time
  starting completing : ℕ → String → Call
  resetting : String → Call

module _ (db : Table TimelineBlock) (keyed : (b : TimelineBlock) → db.id_of b ≡ b.id)
    (guest_in : String → String) (production_id : String) where
  -- the state after a call, whether it succeeds or throws
  abbrev pub after : Call → World db.Store Event → World db.Store Event
  after (creating id title dto) w = (create_block db id production_id title dto w).1
  after (updating id dto) w = (update_block db id production_id dto w).1
  after (deleting id) w = (delete_block db id production_id w).1
  after (reordering ids) w = (reorder_blocks db production_id ids w).1
  after (starting now id) w = (start_block db guest_in now id production_id w).1
  after (completing now id) w = (complete_block db now id production_id w).1
  after (resetting id) w = (reset_block db id production_id w).1

  abbrev pub after_all : List Call → World db.Store Event → World db.Store Event
  after_all [] w = w
  after_all (c ∷ cs) w = after_all cs (after c w)

  -- The rows that a start leaves: only its block may be active.
  pub marked :
      (now : ℕ) (id : String) (w : World db.Store Event) (s' : db.Store) (r : TimelineBlock)
      → db.update id (start now) (db.update_many (is_active_in production_id) (complete now) w.db)
        ≡ some (r, s')
      → OnlyActive production_id id (db.rows s')
  marked now id w s' r done =
      subst (OnlyActive production_id id)
        (sym (
          update-rows db id (start now) _ {r = r} {s' = s'} done
          ∙ ap (update_where (λ x. db.id_of x == id) (start now))
              (db.rows-update_many (is_active_in production_id) (complete now) w.db)))
        (started-OnlyActive production_id id now (λ x. db.id_of x == id) (db.rows w.db)
          (λ b. ap (λ i. i == id) (keyed b)))

  start_block-Single :
      (now : ℕ) (id : String) (w : World db.Store Event)
      → Single db production_id w.db
      → Single db production_id (start_block db guest_in now id production_id w).1.db
  unfolding start_block
  start_block-Single now id w (k, h) =
      let cleared : db.Store = db.update_many (is_active_in production_id) (complete now) w.db in
      elim (Option-cases (db.find_first (is_block id production_id) w.db)) [
        | inl missed ↦ subst (Single db production_id) (ground (arith, missed)) (k, h)
        | inr (b, found) ↦ elim (Bool-cases (is_active b.status)) [
          | inl on ↦ subst (Single db production_id) (ground (arith, found, on)) (k, h)
          | inr off ↦ elim (Option-cases (db.update id (start now) cleared)) [
            | inl gone ↦ subst (Single db production_id) (ground (arith, found, off, gone)) (
              k,
              subst (OnlyActive production_id k)
                  (sym (db.rows-update_many (is_active_in production_id) (complete now) w.db))
                  (update_where-OnlyActive production_id k (is_active_in production_id)
                    (complete now) (db.rows w.db) (complete-IsQuiet production_id now) h),
            )
            | inr ((r, s'), done) ↦
                subst (Single db production_id) (ground (arith, found, off, done))
                  (id, marked now id w s' r done)
          ]
        ]
      ]

  -- From at most one active block, any sequence of the production's calls, each run to its end
  -- before the next, leaves at most one.
  pub after_all-Single :
      (cs : List Call) (w : World db.Store Event)
      → Single db production_id w.db
      → Single db production_id (after_all cs w).db
  after_all-Single [] w h = h
  after_all-Single (c ∷ cs) w h = after_all-Single cs (after c w) (after-Single c w h)
    where
      after-Single :
          (c : Call) (w : World db.Store Event)
          → Single db production_id w.db
          → Single db production_id (after c w).db
      after-Single (creating id title dto) w h =
          create_block-Single db production_id id title dto w h
      after-Single (updating id dto) w h = update_block-Single db production_id id dto w h
      after-Single (deleting id) w h = delete_block-Single db production_id id w h
      after-Single (reordering ids) w h = reorder_blocks-Single db production_id ids w h
      after-Single (starting now id) w h = start_block-Single now id w h
      after-Single (completing now id) w h = complete_block-Single db production_id now id w h
      after-Single (resetting id) w h = reset_block-Single db production_id id w h

  -- A start that succeeds: the block it returns is active, and no other block of the production is.
  pub start_block-OnlyActive :
      (now : ℕ) (id : String) (w w' : World db.Store Event) (r : TimelineBlock)
      → start_block db guest_in now id production_id w ≡ (ok r, w')
      → (r.status ≡ BlockStatus.active) × OnlyActive production_id id (db.rows w'.db)
  unfolding start_block
  start_block-OnlyActive now id w w' r h =
      let cleared : db.Store = db.update_many (is_active_in production_id) (complete now) w.db in
      elim (Option-cases (db.find_first (is_block id production_id) w.db)) [
        | inl missed ↦ absurd (ground (arith, h, missed))
        | inr (b, found) ↦ elim (Option-cases (db.update id (start now) cleared)) [
          | inl gone ↦ absurd (ground (arith, h, found, gone))
          | inr ((x, s'), done) ↦
              let (same, wrote) = both b x s' found done in
              let (x₀, there, written) =
                update-row db id (start now) cleared {r = x} {s' = s'} done in
              (
                ap (λ (y : TimelineBlock). y.status) (same ∙ written),
                subst (OnlyActive production_id id) (ap db.rows (sym wrote))
                    (marked now id w s' x done),
              )
        ]
      ]
    where
      both :
          (b x : TimelineBlock) (s' : db.Store)
          → db.find_first (is_block id production_id) w.db ≡ some b
          → db.update id
              (start now)
              (db.update_many (is_active_in production_id) (complete now) w.db)
            ≡ some (x, s')
          → (r ≡ x) × (w'.db ≡ s')
      both b x s' found done = ground (arith, h, found, done)
