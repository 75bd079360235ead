-- ===== src/Automation/Engine/Tests.antt =====
-- A rule with and without delays; instances of the theorems about the engine.
use live_ops_backend.Prelude.{◌≤◌, ◌≡◌, refl, true, List, [], ◌∷◌}
use live_ops_backend.Prelude.Map.{add}
use live_ops_backend.Automation.Engine.{
  Action, Rule, success, error, Input, trigger, settled, idle, feed_all, execute_actions,
  action_settled, step_run,
}
use live_ops_backend.Automation.Engine.Exclusive.{Inv, feed_all-Inv}
use live_ops_backend.Automation.Engine.Overlap.{
  flying_runs, sequential_no_overlap, failure_lets_runs_overlap,
}

abbrev cut : Action
cut = record { id = "a1"; action_type = "vmix.cut"; delay_ms = 0 }

abbrev clip : Action
clip = record { id = "a2"; action_type = "engine.instantClip"; delay_ms = 0 }

abbrev both : Rule
both = record {
  id = "r1";
  production_id = "p1";
  name = "Both";
  is_enabled = true;
  actions = cut ∷ clip ∷ [];
}

abbrev delayed : Rule
delayed = record both { actions = cut ∷ record clip { delay_ms = 500 } ∷ [] }

abbrev twice : List Input
twice = trigger delayed ∷ trigger delayed ∷ settled 0 0 success ∷ settled 0 0 success ∷ []

second_is_skipped : (feed_all twice idle).log ≡ ("r1", success) ∷ []
unfolding execute_actions action_settled add step_run
second_is_skipped = refl

feed_all-Inv_example : Inv (feed_all twice idle)
feed_all-Inv_example = feed_all-Inv twice

sequential_no_overlap_example : flying_runs "r1" (feed_all twice idle).runs ≤ 1
sequential_no_overlap_example = sequential_no_overlap twice "r1" (refl, (refl, (tt, (tt, tt))))

failure_lets_runs_overlap_example :
    flying_runs "r1" (feed_all (trigger both ∷ settled 0 0 error ∷ trigger both ∷ []) idle).runs ≡ 2
failure_lets_runs_overlap_example = failure_lets_runs_overlap both cut clip [] refl refl
