-- ===== src/Automation/Timing/Tests.antt =====
-- A block of a minute with a trigger ten seconds before its end; instances of the theorems.
use live_ops_backend.Prelude.{◌+◌, ◌<◌, ◌≡◌, refl, true, false, List, [], ◌∷◌, some, any, arith}
use live_ops_backend.Automation.Engine.{Rule}
use live_ops_backend.Automation.Timing.{
  Block, TimedRule, remaining_seconds, equals, check_time_triggers,
}
use live_ops_backend.Automation.Timing.Window.{steady_ticks_hit, hits_close, late_ticks_miss}

abbrev block : Block
block = record {
  id = "b1";
  production_id = "p1";
  is_active = true;
  duration_ms = 60000;
  start_time = some 5000;
}

abbrev warn : Rule
warn = record { id = "r1"; production_id = "p1"; name = "Warn"; is_enabled = true; actions = [] }

abbrev rules : List TimedRule
rules =
    record {
      rule = warn;
      triggers = record { event_type = "timeline.before_end"; seconds_before = 10 } ∷ [];
    }
    ∷ []

due_now : check_time_triggers (λ r b s. false) 54500 (block ∷ []) rules ≡ (warn, block) ∷ []
unfolding check_time_triggers remaining_seconds
due_now = refl

steady_ticks_hit_example :
    any (λ tick. equals (remaining_seconds tick 5000 60000) 10) (54100 ∷ 55050 ∷ []) ≡ true
steady_ticks_hit_example =
    steady_ticks_hit 5000 60000 10 53500 (54100 ∷ 55050 ∷ []) (omega arith) (omega arith)
      (omega arith)

hits_close_example : 54900 < 54100 + 1000
unfolding remaining_seconds
hits_close_example = hits_close 5000 60000 10 54100 54900 refl refl

late_ticks_miss_example :
    any (λ tick. equals (remaining_seconds tick 5000 60000) 10) (54000 ∷ (54000 + 1001) ∷ [])
    ≡ false
late_ticks_miss_example = late_ticks_miss 5000 60000 10 54000 (omega arith)
