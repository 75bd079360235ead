-- ===== src/Timeline/Single/Writes.antt =====
-- Each call but the start keeps at most one active block.
use live_ops_backend.Prelude.{
  ℕ, suc, String, ◌==◌, ◌≡◌, refl, not, List, [], ◌∷◌, none, some, arith, sym, subst, World,
  Option-cases, inl, inr,
}
use live_ops_backend.Prelude.Table.{Table, update-rows, delete-rows}
use live_ops_backend.Timeline.{
  TimelineBlock, UpdateTimelineBlock, Event, is_block, complete, reset, revise, new_block,
  create_block, update_block, delete_block, reorder_from, reorder_blocks, complete_block,
  reset_block,
}
use live_ops_backend.Timeline.Single.{
  OnlyActive, append-OnlyActive, filter-OnlyActive, IsQuiet, update_where-OnlyActive,
  revise-IsQuiet, complete-IsQuiet, reset-IsQuiet, order-IsQuiet,
}

module _ (db : Table TimelineBlock) (production_id : String) where
  -- At most one block of the production is active.
  abbrev pub Single : db.Store → Type 0
  Single s = (k : String) × OnlyActive production_id k (db.rows s)

  update-Single :
      (id : String) (f : TimelineBlock → TimelineBlock) (s s' : db.Store) (b : TimelineBlock)
      → IsQuiet production_id f
      → db.update id f s ≡ some (b, s')
      → Single s
      → Single s'
  update-Single id f s s' b quiet done (k, h) = (
    k,
    subst (OnlyActive production_id k) (sym (update-rows db id f s {r = b} {s' = s'} done))
        (update_where-OnlyActive production_id k (λ x. db.id_of x == id) f (db.rows s) quiet h),
  )

  -- a call that finds a block and then writes its row
  quiet_call-Single :
      (id : String) (f : TimelineBlock → TimelineBlock) (s s' : db.Store)
      → IsQuiet production_id f
      → (db.find_first (is_block id production_id) s ≡ none → s' ≡ s)
      → ((b : TimelineBlock)
          → db.find_first (is_block id production_id) s ≡ some b
          → db.update id f s ≡ none
          → s' ≡ s)
      → ((b r : TimelineBlock) (t : db.Store)
          → db.find_first (is_block id production_id) s ≡ some b
          → db.update id f s ≡ some (r, t)
          → s' ≡ t)
      → Single s
      → Single s'
  quiet_call-Single id f s s' quiet on_missed on_gone on_done h =
      elim (Option-cases (db.find_first (is_block id production_id) s)) [
        | inl missed ↦ subst Single (sym (on_missed missed)) h
        | inr (b, found) ↦ elim (Option-cases (db.update id f s)) [
          | inl gone ↦ subst Single (sym (on_gone b found gone)) h
          | inr ((r, t), done) ↦
              subst Single (sym (on_done b r t found done)) (update-Single id f s t r quiet done h)
        ]
      ]

  pub update_block-Single :
      (id : String) (dto : UpdateTimelineBlock) (w : World db.Store Event)
      → Single w.db
      → Single (update_block db id production_id dto w).1.db
  unfolding update_block
  update_block-Single id dto w =
      quiet_call-Single id (revise dto) w.db _ (revise-IsQuiet production_id dto)
        (λ missed. ground (arith, missed)) (λ b found gone. ground (arith, found, gone))
        (λ b r t found done. ground (arith, found, done))

  pub complete_block-Single :
      (now : ℕ) (id : String) (w : World db.Store Event)
      → Single w.db
      → Single (complete_block db now id production_id w).1.db
  unfolding complete_block
  complete_block-Single now id w =
      quiet_call-Single id (complete now) w.db _ (complete-IsQuiet production_id now)
        (λ missed. ground (arith, missed)) (λ b found gone. ground (arith, found, gone))
        (λ b r t found done. ground (arith, found, done))

  pub reset_block-Single :
      (id : String) (w : World db.Store Event)
      → Single w.db
      → Single (reset_block db id production_id w).1.db
  unfolding reset_block
  reset_block-Single id w =
      quiet_call-Single id reset w.db _ (reset-IsQuiet production_id)
        (λ missed. ground (arith, missed)) (λ b found gone. ground (arith, found, gone))
        (λ b r t found done. ground (arith, found, done))

  pub create_block-Single :
      (id title : String) (dto : UpdateTimelineBlock) (w : World db.Store Event)
      → Single w.db
      → Single (create_block db id production_id title dto w).1.db
  unfolding create_block
  create_block-Single id title dto w (k, h) = (
    k,
    subst (OnlyActive production_id k)
        (sym (db.rows-create (new_block id production_id title dto) w.db))
        (append-OnlyActive production_id k (db.rows w.db) (new_block id production_id title dto) h
          refl),
  )

  reorder_from-Single :
      (index : ℕ) (ids : List String) (s s' : db.Store)
      → reorder_from db index ids s ≡ some s'
      → Single s
      → Single s'
  unfolding reorder_from
  reorder_from-Single index [] s s' done h = subst Single (cc done) h
  reorder_from-Single index (id ∷ ids) s s' done h =
      elim (Option-cases (db.update id (λ b. record b { order = index }) s)) [
        | inl gone ↦ absurd (cc (rw (reorder_from, gone) at done))
        | inr ((b, t), there) ↦
            reorder_from-Single (suc index) ids t s' (rw (reorder_from, there) at done) (
              update-Single id (λ b. record b { order = index }) s t b
                (order-IsQuiet production_id index) there h)
      ]

  pub reorder_blocks-Single :
      (ids : List String) (w : World db.Store Event)
      → Single w.db
      → Single (reorder_blocks db production_id ids w).1.db
  unfolding reorder_blocks
  reorder_blocks-Single ids w h = elim (Option-cases (reorder_from db 0 ids w.db)) [
    | inl failed ↦ rw (reorder_blocks, failed) h
    | inr (s', done) ↦ rw (reorder_blocks, done) (reorder_from-Single 0 ids w.db s' done h)
  ]

  pub delete_block-Single :
      (id : String) (w : World db.Store Event)
      → Single w.db
      → Single (delete_block db id production_id w).1.db
  unfolding delete_block
  delete_block-Single id w (k, h) =
      elim (Option-cases (db.find_first (is_block id production_id) w.db)) [
        | inl missed ↦ subst Single (ground (arith, missed)) (k, h)
        | inr (b, found) ↦ elim (Option-cases (db.delete id w.db)) [
          | inl gone ↦ subst Single (ground (arith, found, gone)) (k, h)
          | inr (s', done) ↦ subst Single (ground (arith, found, done)) (
            k,
            subst (OnlyActive production_id k) (sym (delete-rows db id w.db done))
                (filter-OnlyActive production_id k (λ x. not (db.id_of x == id)) (db.rows w.db) h),
          )
        ]
      ]
