-- ===== src/Automation/Timing/Window.antt =====
-- When a time trigger hits: in one window of a second, which a tick each second cannot miss.
use live_ops_backend.Prelude.{
  ℕ, ◌+◌, ◌*◌, ◌≤◌, ◌<◌, ◌≡◌, refl, true, false, List, [], ◌∷◌, arith, ◌↔◌, inl, inr, Bool-cases,
  any, ◌==◌, ◌&&◌, ◌++◌, All, filter, eq_iff, some, not, Option-cases,
}
use live_ops_backend.Automation.Engine.{Rule}
use live_ops_backend.Automation.Timing.{
  Block, TimeTrigger, TimedRule, remaining_seconds, equals, hits, Due, Logged, due_triggers,
  due_rules, due_block, due_blocks, check_time_triggers, is_timed, is_counted,
}

-- The trigger for t seconds before the end hits exactly in the second that ends t seconds before it.
pub hit_window :
    (now start duration t : ℕ)
    → (equals (remaining_seconds now start duration) t ≡ true)
      ↔ ((now + 1000 * t ≤ start + duration) × (start + duration < now + 1000 * t + 1000))
unfolding remaining_seconds
hit_window now start duration t = (λ h. ground arith, λ h. ground arith)

-- the ticks of the interval, each at most a second after the one before
abbrev pub IsSteady : ℕ → List ℕ → Type 0
IsSteady now [] = Unit
IsSteady now (t ∷ ts) = (t ≤ now + 1000) × IsSteady t ts

abbrev pub last : ℕ → List ℕ → ℕ
last now [] = now
last now (t ∷ ts) = last t ts

-- Ticks at most a second apart, from before the window until after it, hit the trigger.
pub steady_ticks_hit :
    (start duration t now : ℕ) (ticks : List ℕ)
    → now + 1000 * t + 1000 ≤ start + duration
    → IsSteady now ticks
    → start + duration < last now ticks + 1000 * t
    → any (λ tick. equals (remaining_seconds tick start duration) t) ticks ≡ true
steady_ticks_hit start duration t now [] early s late = absurd (omega arith)
steady_ticks_hit start duration t now (tick ∷ ticks) early s late =
    elim (Bool-cases (equals (remaining_seconds tick start duration) t)) [
      | inl hit ↦ rw hit refl
      | inr missed ↦ rw missed (
          steady_ticks_hit start duration t tick ticks
            (ground (arith, hit_window tick start duration t, s.0)) s.1 late)
    ]

-- Two hits of one trigger are less than a second apart.
pub hits_close :
    (start duration t now later : ℕ)
    → equals (remaining_seconds now start duration) t ≡ true
    → equals (remaining_seconds later start duration) t ≡ true
    → later < now + 1000
hits_close start duration t now later h k =
    omega (arith, (hit_window now start duration t).0 h, (hit_window later start duration t).0 k)

-- A tick that comes more than a second after the one before can miss: for every block and trigger
-- there are two such ticks, 1001 ms apart, around the window.
pub late_ticks_miss :
    (start duration t now : ℕ)
    → now + 1000 * t + 1000 ≡ start + duration
    → any (λ tick. equals (remaining_seconds tick start duration) t) (now ∷ (now + 1001) ∷ [])
      ≡ false
unfolding remaining_seconds
late_ticks_miss start duration t now h = ground arith

module _ (already_logged : Logged) (now : ℕ) where
  -- a call for a rule of the block's production, not yet logged for this start of the block
  pub record IsDue (x : Due) : Type 0 where
    pub same_production : x.0.production_id ≡ x.1.production_id
    pub start : ℕ
    pub started : x.1.start_time ≡ some start
    pub trigger : TimeTrigger
    pub hit : hits now start x.1.duration_ms trigger ≡ true
    pub not_logged : already_logged x.0.id x.1.id start ≡ false

  All-++ : (xs ys : List Due) → All IsDue xs → All IsDue ys → All IsDue (xs ++ ys)
  All-++ [] ys h k = k
  All-++ (x ∷ xs) ys h k = (h.0, All-++ xs ys h.1 k)

  due_triggers-IsDue :
      (b : Block) (start : ℕ) (r : Rule) (ts : List TimeTrigger)
      → b.start_time ≡ some start
      → r.production_id ≡ b.production_id
      → All IsDue (due_triggers already_logged now b start r ts)
  unfolding due_triggers
  due_triggers-IsDue b start r [] s p = tt
  due_triggers-IsDue b start r (t ∷ ts) s p =
      elim (Bool-cases (hits now start b.duration_ms t && not (already_logged r.id b.id start))) [
        | inl e ↦ rw e (
          record {
            same_production = p;
            start = start;
            started = s;
            trigger = t;
            hit = ground arith;
            not_logged = ground arith;
          },
          due_triggers-IsDue b start r ts s p,
        )
        | inr e ↦ rw e (due_triggers-IsDue b start r ts s p)
      ]

  due_rules-IsDue :
      (b : Block) (start : ℕ) (rs : List TimedRule)
      → b.start_time ≡ some start
      → All IsDue (
          due_rules already_logged now b start
            (filter (λ r. r.rule.production_id == b.production_id) rs))
  unfolding due_rules
  due_rules-IsDue b start [] s = tt
  due_rules-IsDue b start (r ∷ rs) s = elim (Bool-cases (r.rule.production_id == b.production_id)) [
    | inl e ↦ rw e (
        All-++ _ _ (due_triggers-IsDue b start r.rule r.triggers s ((eq_iff _ _).0 e))
          (due_rules-IsDue b start rs s))
    | inr e ↦ rw e (due_rules-IsDue b start rs s)
  ]

  due_blocks-IsDue :
      (rules : List TimedRule) (bs : List Block)
      → All IsDue (due_blocks already_logged now rules bs)
  unfolding due_blocks
  due_blocks-IsDue rules [] = tt
  due_blocks-IsDue rules (b ∷ bs) = elim (Option-cases b.start_time) [
    | inl e ↦ All-++ _ _ (rw (e, due_block) tt) (due_blocks-IsDue rules bs)
    | inr (start, e) ↦
        All-++ _ _ (rw (e, due_block) (due_rules-IsDue b start rules e)) (due_blocks-IsDue rules bs)
  ]

  -- Every run that the check starts is of a rule of the block's production, for a block that has
  -- started, on a time trigger that hits now, and not one that the log has since that start.
  pub check_time_triggers-IsDue :
      (blocks : List Block) (rules : List TimedRule)
      → All IsDue (check_time_triggers already_logged now blocks rules)
  unfolding check_time_triggers
  check_time_triggers-IsDue blocks rules =
      due_blocks-IsDue
        (filter (is_timed already_logged now (filter (is_counted already_logged now) blocks)) rules)
        (filter (is_counted already_logged now) blocks)
