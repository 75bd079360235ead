-- ===== src/Automation/Timing.antt =====
-- Time triggers: `checkTimeTriggers` of src/automation/automation-engine.service.ts. Times and
-- durations are milliseconds; what the log already holds is a parameter.
pub mod Window
mod Tests
use live_ops_backend.Prelude.{
  ℕ, ◌+◌, ◌-◌, ◌*◌, ◌/◌, ◌≤◌, String, ◌==◌, Bool, true, false, not, ◌&&◌, List, [], ◌∷◌, ◌++◌,
  Option, none, some, if◌then◌else◌, any, filter, leb, ltb, eqb, is_some,
}
use live_ops_backend.Automation.Engine.{Rule}

-- the columns of an active timeline block that the check reads
pub record Block : Type 0 where
  pub id : String
  pub production_id : String
  pub is_active : Bool
  pub duration_ms : ℕ
  pub start_time : Option ℕ

-- `eventType`, and `condition?.secondsBefore || 0`
pub record TimeTrigger : Type 0 where
  pub event_type : String
  pub seconds_before : ℕ

pub record TimedRule : Type 0 where
  pub rule : Rule
  pub triggers : List TimeTrigger

-- Math.floor((durationMs - elapsed) / 1000), null where it is negative: it is then equal to no
-- `secondsBefore`, which is not
unfoldable pub remaining_seconds : ℕ → ℕ → ℕ → Option ℕ
remaining_seconds now start duration =
    if leb now (start + duration) then some ((start + duration - now) / 1000) else none

abbrev pub equals : Option ℕ → ℕ → Bool
equals none t = false
equals (some r) t = eqb r t

abbrev pub before_end : TimeTrigger → Bool
before_end t = t.event_type == "timeline.before_end"

-- `remainingSeconds === triggerSeconds`, for a trigger of the right type
abbrev pub hits : ℕ → ℕ → ℕ → TimeTrigger → Bool
hits now start duration t =
    before_end t && equals (remaining_seconds now start duration) t.seconds_before

-- the calls of `executeActions`: rule and block
abbrev pub Due : Type 0
Due = Rule × Block

-- rule id, block id and start time: a log entry of the rule names the block after that time
abbrev pub Logged : Type 0
Logged = String → String → ℕ → Bool

module _ (already_logged : Logged) (now : ℕ) where
  -- the loop over the triggers of a rule
  pub due_triggers : Block → ℕ → Rule → List TimeTrigger → List Due
  due_triggers b start r [] = []
  due_triggers b start r (t ∷ ts) =
      let rest = due_triggers b start r ts in
      if hits now start b.duration_ms t && not (already_logged r.id b.id start)
      then (r, b) ∷ rest
      else rest

  -- the loop over the rules of a block's production
  pub due_rules : Block → ℕ → List TimedRule → List Due
  due_rules b start [] = []
  due_rules b start (r ∷ rs) = due_triggers b start r.rule r.triggers ++ due_rules b start rs

  abbrev pub due_block : List TimedRule → Block → Option ℕ → List Due
  due_block rules b none = []
  due_block rules b (some start) =
      due_rules b start (filter (λ r. r.rule.production_id == b.production_id) rules)

  -- the loop over the active blocks
  pub due_blocks : List TimedRule → List Block → List Due
  due_blocks rules [] = []
  due_blocks rules (b ∷ bs) = due_block rules b b.start_time ++ due_blocks rules bs

  -- the `where` of the blocks
  abbrev pub is_counted : Block → Bool
  is_counted b = b.is_active && (ltb 0 b.duration_ms && is_some b.start_time)

  -- the `where` of the rules
  abbrev pub is_timed : List Block → TimedRule → Bool
  is_timed bs r =
      any (λ (b : Block). b.production_id == r.rule.production_id) bs
      && (r.rule.is_enabled && any before_end r.triggers)

  unfoldable pub check_time_triggers : List Block → List TimedRule → List Due
  unfolding due_blocks due_rules due_triggers
  check_time_triggers blocks rules =
      let counted = filter is_counted blocks in due_blocks (filter (is_timed counted) rules) counted
