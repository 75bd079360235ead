-- ===== src/Timeline/Order.antt =====
-- What a reordering writes.
use live_ops_backend.Prelude.{
  ℕ, suc, String, ◌==◌, ◌≡◌, refl, Bool, false, List, [], ◌∷◌, Option, some, arith, sym, ap, ◌∙◌,
  subst, if◌then◌else◌, Option-cases, inl, inr, find, find-update_where, find-satisfies, eq_iff,
  eq_refl, All, ok, World,
}
use live_ops_backend.Prelude.Table.{Table, update-rows, update-row}
use live_ops_backend.Timeline.{TimelineBlock, Event, reorder_from, reorder_blocks}

-- the row with an id
abbrev pub row : (db : Table TimelineBlock) → String → db.Store → Option TimelineBlock
row db id s = find (λ z. db.id_of z == id) (db.rows s)

abbrev pub at_index : ℕ → TimelineBlock → TimelineBlock
at_index n b = record b { order = n }

-- no id twice
abbrev pub Apart : List String → Type 0
Apart [] = Unit
Apart (id ∷ ids) = All (λ other. (id == other) ≡ false) ids × Apart ids

module _ (db : Table TimelineBlock) (keyed : (b : TimelineBlock) → db.id_of b ≡ b.id) where
  -- a row after the row of an id was changed, by what keeps ids
  pub row-write :
      (f : TimelineBlock → TimelineBlock)
      → ((b : TimelineBlock) → (f b).id ≡ b.id)
      → (id other : String) (s s' : db.Store) (z r : TimelineBlock) → row db id s ≡ some z
      → db.update other f s ≡ some (r, s')
      → row db id s' ≡ some (if id == other then f z else z)
  row-write f same_id id other s s' z r found done =
      ap (find (λ z. db.id_of z == id)) (update-rows db other f s {r = r} {s' = s'} done)
      ∙ find-update_where (λ z. db.id_of z == id) (λ z. db.id_of z == other) f (db.rows s)
          (λ u. ap (λ i. i == id) (keyed (f u) ∙ same_id u ∙ sym (keyed u))) found
      ∙ ap (λ i. some (if i == other then f z else z))
          ((eq_iff (db.id_of z) id).0 (find-satisfies (λ z. db.id_of z == id) (db.rows s) found).1)

  -- The blocks of the list, in its order, have the orders n, n + 1, ….
  abbrev pub OrderedFrom : ℕ → List String → db.Store → Type 0
  OrderedFrom n [] s = Unit
  OrderedFrom n (id ∷ ids) s =
      ((z : TimelineBlock) × (row db id s ≡ some z) × (z.order ≡ n)) × OrderedFrom (suc n) ids s

  reorder-keeps :
      (n : ℕ) (ids : List String) (id : String) (s s' : db.Store) (z : TimelineBlock)
      → All (λ other. (id == other) ≡ false) ids
      → row db id s ≡ some z
      → reorder_from db n ids s ≡ some s'
      → row db id s' ≡ some z
  unfolding reorder_from
  reorder-keeps n [] id s s' z apart found done =
      subst (λ t. row db id t ≡ some z) (same done) found
    where
      same : {a b : db.Store} → some a ≡ some b → a ≡ b
      same e = cc
  reorder-keeps n (other ∷ ids) id s s' z apart found done =
      elim (Option-cases (db.update other (at_index n) s)) [
        | inl gone ↦ absurd (cc (rw (reorder_from, gone) at done))
        | inr ((r, t), there) ↦
            reorder-keeps (suc n) ids id t s' z apart.1
              (row-write (at_index n) (λ b. refl) id other s t z r found there
                ∙ ap (λ (b : Bool). some (if b then at_index n z else z)) apart.0)
              (rw (reorder_from, there) at done)
      ]

  reorder-OrderedFrom :
      (n : ℕ) (ids : List String) (s s' : db.Store)
      → Apart ids
      → reorder_from db n ids s ≡ some s'
      → OrderedFrom n ids s'
  unfolding reorder_from
  reorder-OrderedFrom n [] s s' apart done = tt
  reorder-OrderedFrom n (id ∷ ids) s s' apart done =
      elim (Option-cases (db.update id (at_index n) s)) [
        | inl gone ↦ absurd (cc (rw (reorder_from, gone) at done))
        | inr ((r, t), there) ↦
            let rest : reorder_from db (suc n) ids t ≡ some s' = rw (reorder_from, there) at done in
            let (z, found, same) = update-row db id (at_index n) s {r = r} {s' = t} there in
            let now : row db id t ≡ some (at_index n z) =
              row-write (at_index n) (λ b. refl) id id s t z r found there
              ∙ ap (λ (b : Bool). some (if b then at_index n z else z)) (eq_refl id) in
            (
              (
                at_index n z,
                reorder-keeps (suc n) ids id t s' (at_index n z) apart.0 now rest,
                refl,
              ),
              reorder-OrderedFrom (suc n) ids t s' apart.1 rest,
            )
      ]

  -- A reordering by a list without repetitions that succeeds: the blocks have their places in the
  -- list as their orders, from 0.
  pub reorder_blocks-OrderedFrom :
      (production_id : String) (ids : List String) (w w' : World db.Store Event)
      → Apart ids
      → reorder_blocks db production_id ids w ≡ (ok tt, w')
      → OrderedFrom 0 ids w'.db
  unfolding reorder_blocks
  reorder_blocks-OrderedFrom production_id ids w w' apart h =
      elim (Option-cases (reorder_from db 0 ids w.db)) [
        | inl failed ↦ absurd (ground (arith, h, failed))
        | inr (s', done) ↦
            subst (OrderedFrom 0 ids) (wrote s' done) (reorder-OrderedFrom 0 ids w.db s' apart done)
      ]
    where
      wrote : (s' : db.Store) → reorder_from db 0 ids w.db ≡ some s' → s' ≡ w'.db
      wrote s' done = ground (arith, h, done)
