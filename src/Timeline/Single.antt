-- ===== src/Timeline/Single.antt =====
-- At most one block of a production is active, while its calls come one after another.
pub mod Writes
pub mod Calls
use live_ops_backend.Prelude.{
  ℕ, String, ◌==◌, ◌≡◌, refl, Bool, true, false, not, ◌&&◌, List, [], ◌∷◌, ◌++◌, Option, none, some,
  arith, sym, ap, ◌∙◌, subst, ok, Outcome, World, if◌then◌else◌, Option-cases, Bool-cases, inl, inr,
  All, filter, update_where, eq_iff, Exception, ◌⊎◌,
}
use live_ops_backend.Prelude.Table.{Table, update-rows, update_row, delete_row}
use live_ops_backend.Timeline.{
  TimelineBlock, UpdateTimelineBlock, BlockStatus, Event, is_block, is_active, is_active_in,
  complete, start, reset, revise, new_block, create_block, update_block, delete_block, reorder_from,
  reorder_blocks, begin_start, complete_active, mark_active, start_block, complete_block,
  reset_block, find_block,
}

-- Only the block `k` may be active in the production.
abbrev pub OnlyActive : String → String → List TimelineBlock → Type 0
OnlyActive production_id k xs =
    All (λ (b : TimelineBlock). is_active_in production_id b ≡ true → b.id ≡ k) xs

pub append-OnlyActive :
    (production_id k : String) (xs : List TimelineBlock) (b : TimelineBlock)
    → OnlyActive production_id k xs
    → is_active b.status ≡ false
    → OnlyActive production_id k (xs ++ b ∷ [])
append-OnlyActive production_id k [] b h idle = (λ e. ground arith, tt)
append-OnlyActive production_id k (x ∷ xs) b h idle =
    (h.0, append-OnlyActive production_id k xs b h.1 idle)

pub filter-OnlyActive :
    (production_id k : String) (p : TimelineBlock → Bool) (xs : List TimelineBlock)
    → OnlyActive production_id k xs
    → OnlyActive production_id k (filter p xs)
filter-OnlyActive production_id k p [] h = tt
filter-OnlyActive production_id k p (x ∷ xs) h =
    let ih = filter-OnlyActive production_id k p xs h.1 in
    elim (Bool-cases (p x)) [ inl e ↦ rw e (h.0, ih) | inr e ↦ rw e ih ]

-- a change that keeps a block's id and makes no block active
pub record IsQuiet (production_id : String) (f : TimelineBlock → TimelineBlock) : Type 0 where
  pub same_id : (b : TimelineBlock) → (f b).id ≡ b.id
  pub same_or_idle :
      (b : TimelineBlock)
      → is_active_in production_id (f b) ≡ true
      → is_active_in production_id b ≡ true

pub update_where-OnlyActive :
    (production_id k : String) (p : TimelineBlock → Bool) (f : TimelineBlock → TimelineBlock)
    (xs : List TimelineBlock)
    → IsQuiet production_id f
    → OnlyActive production_id k xs
    → OnlyActive production_id k (update_where p f xs)
update_where-OnlyActive production_id k p f [] quiet h = tt
update_where-OnlyActive production_id k p f (x ∷ xs) quiet h =
    let ih = update_where-OnlyActive production_id k p f xs quiet h.1 in
    elim (Bool-cases (p x)) [
      | inl e ↦ rw e ((λ on. quiet.same_id x ∙ h.0 (quiet.same_or_idle x on)), ih)
      | inr e ↦ rw e (h.0, ih)
    ]

-- The rows after the two writes of a start.
pub started-OnlyActive :
    (production_id id : String) (now : ℕ) (p : TimelineBlock → Bool) (xs : List TimelineBlock)
    → ((b : TimelineBlock) → p b ≡ (b.id == id))
    → OnlyActive production_id id
        (update_where p (start now) (update_where (is_active_in production_id) (complete now) xs))
started-OnlyActive production_id id now p [] same = tt
started-OnlyActive production_id id now p (x ∷ xs) same =
    let ih = started-OnlyActive production_id id now p xs same in
    elim (Bool-cases (is_active_in production_id x)) [
      | inl e ↦ elim (Bool-cases (x.id == id)) [
        | inl g ↦ rw (e, same (complete now x), g) ((λ on. (eq_iff x.id id).0 g), ih)
        | inr g ↦
            rw (e, same (complete now x), g)
              ((λ on. absurd (idle (x.production_id == production_id) on)), ih)
      ]
      | inr e ↦ elim (Bool-cases (x.id == id)) [
        | inl g ↦ rw (e, same x, g) ((λ on. (eq_iff x.id id).0 g), ih)
        | inr g ↦ rw (e, same x, g) ((λ on. absurd (cc (on, e))), ih)
      ]
    ]
  where
    idle : (b : Bool) → (b && false) ≡ true → ⊥
    idle true h = cc
    idle false h = cc

pub revise-IsQuiet :
    (production_id : String) (dto : UpdateTimelineBlock) → IsQuiet production_id (revise dto)
revise-IsQuiet production_id dto = record { same_id = λ b. refl; same_or_idle = λ b on. on }

pub complete-IsQuiet : (production_id : String) (now : ℕ) → IsQuiet production_id (complete now)
complete-IsQuiet production_id now = record {
  same_id = λ b. refl;
  same_or_idle = λ b on. ground (arith, on);
}

pub reset-IsQuiet : (production_id : String) → IsQuiet production_id reset
reset-IsQuiet production_id = record {
  same_id = λ b. refl;
  same_or_idle = λ b on. ground (arith, on);
}

pub order-IsQuiet :
    (production_id : String) (n : ℕ) → IsQuiet production_id (λ b. record b { order = n })
order-IsQuiet production_id n = record { same_id = λ b. refl; same_or_idle = λ b on. on }
