-- ===== src/Timeline/Race.antt =====
-- Two starts in one production whose database steps interleave.
use live_ops_backend.Prelude.{
  ℕ, String, ◌==◌, ◌≡◌, refl, Bool, true, false, ◌&&◌, some, arith, sym, ap, ◌∙◌, World,
  if◌then◌else◌, Bool-cases, inl, inr, find, find-update_where, eq_iff, eq_refl, ◌>>◌,
}
use live_ops_backend.Prelude.Table.{Table, update-found}
use live_ops_backend.Timeline.Order.{row, row-write}
use live_ops_backend.Timeline.{
  TimelineBlock, Event, is_block, is_active, is_active_in, complete, start, begin_start,
  complete_active, mark_active,
}

module _ (db : Table TimelineBlock) (keyed : (b : TimelineBlock) → db.id_of b ≡ b.id)
    (production_id : String) where
  -- both calls check, then both complete what is active, then both mark their block
  abbrev pub interleaved : ℕ → String → String → World db.Store Event → World db.Store Event
  interleaved now a b w =
      ((do
        begin_start db a production_id
        begin_start db b production_id
        complete_active db now production_id
        complete_active db now production_id
        mark_active db now a
        mark_active db now b)
        w).1

  row-clear :
      (now : ℕ) (id : String) (s : db.Store) (z : TimelineBlock)
      → row db id s ≡ some z
      → is_active z.status ≡ false
      → row db id (db.update_many (is_active_in production_id) (complete now) s) ≡ some z
  row-clear now id s z found idle =
      ap (find (λ z. db.id_of z == id))
        (db.rows-update_many (is_active_in production_id) (complete now) s)
      ∙ find-update_where (λ z. db.id_of z == id) (is_active_in production_id) (complete now)
          (db.rows s) (λ u. ap (λ i. i == id) (keyed (complete now u) ∙ sym (keyed u))) found
      ∙ ap (λ (b : Bool). some (if b then complete now z else z))
          (kept (z.production_id == production_id))
    where
      kept : (b : Bool) → (b && is_active z.status) ≡ false
      kept true = idle
      kept false = refl

  apart_too : (a b : String) → (a == b) ≡ false → (b == a) ≡ false
  apart_too a b apart = elim (Bool-cases (b == a)) [
    | inl same ↦ absurd (clash (rw ((eq_iff b a).0 same) at apart) (eq_refl a))
    | inr e ↦ e
  ]
    where
      clash : {t : Bool} → t ≡ false → t ≡ true → ⊥
      clash f t = cc

  -- Two idle blocks of one production, and two starts whose database steps interleave: both blocks
  -- are active afterwards.
  pub interleaved_starts_both_active :
      (now : ℕ) (a b : String) (w : World db.Store Event) (x y : TimelineBlock)
      → (a == b) ≡ false
      → row db a w.db ≡ some x
      → row db b w.db ≡ some y
      → db.find_first (is_block a production_id) w.db ≡ some x
      → db.find_first (is_block b production_id) w.db ≡ some y
      → is_active x.status ≡ false
      → is_active y.status ≡ false
      → (row db a (interleaved now a b w).db ≡ some (start now x))
        × (row db b (interleaved now a b w).db ≡ some (start now y))
  unfolding begin_start complete_active mark_active
  interleaved_starts_both_active now a b w x y apart at_a at_b found_a found_b idle_a idle_b =
      let clear : db.Store → db.Store =
        db.update_many (is_active_in production_id) (complete now) in
      let s = clear (clear w.db) in
      let a₂ : row db a s ≡ some x =
        row-clear now a (clear w.db) x (row-clear now a w.db x at_a idle_a) idle_a in
      let b₂ : row db b s ≡ some y =
        row-clear now b (clear w.db) y (row-clear now b w.db y at_b idle_b) idle_b in
      let (s₃, done_a, wrote_a) = update-found db a (start now) s a₂ in
      let b₃ : row db b s₃ ≡ some y =
        row-write db keyed (start now) (λ u. refl) b a s s₃ y (start now x) b₂ done_a
        ∙ ap (λ (t : Bool). some (if t then start now y else y)) (apart_too a b apart) in
      let a₃ : row db a s₃ ≡ some (start now x) =
        row-write db keyed (start now) (λ u. refl) a a s s₃ x (start now x) a₂ done_a
        ∙ ap (λ (t : Bool). some (if t then start now x else x)) (eq_refl a) in
      let (s₄, done_b, wrote_b) = update-found db b (start now) s₃ b₃ in
      let same : (interleaved now a b w).db ≡ s₄ =
        ground (arith, found_a, found_b, idle_a, idle_b, done_a, done_b) in
      (
        ap (row db a) same
            ∙ row-write db keyed (start now) (λ u. refl) a b s₃ s₄ (start now x) (start now y) a₃
                done_b
            ∙ ap (λ (t : Bool). some (if t then start now (start now x) else start now x)) apart,
        ap (row db b) same
            ∙ row-write db keyed (start now) (λ u. refl) b b s₃ s₄ y (start now y) b₃ done_b
            ∙ ap (λ (t : Bool). some (if t then start now y else y)) (eq_refl b),
      )
