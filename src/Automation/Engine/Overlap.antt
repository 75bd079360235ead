-- ===== src/Automation/Engine/Overlap.antt =====
-- When two runs of one rule can have actions in flight at the same time, and when they cannot.
use live_ops_backend.Prelude.{
  ℕ, zero, suc, ◌≤◌, ◌<◌, String, ◌==◌, ◌≡◌, refl, Bool, true, false, ◌&&◌, List, [], ◌∷◌, ◌++◌,
  arith, eq_refl, count, length, Bool-cases, inl, inr, Option-cases, All, ltb,
}
use live_ops_backend.Prelude.Map.{has, add, remove}
use live_ops_backend.Automation.Engine.{
  Action, Rule, Run, Engine, Status, error, Input, trigger, settled, launch, has_delays, take_out,
  step_run, step_runs, execute_actions, action_settled, idle, feed, feed_all, settle_if_closed,
}
use live_ops_backend.Automation.Engine.Exclusive.{open_runs, feed_all-Inv}

abbrev pub is_flying : Run → Bool
is_flying r = ltb 0 (length r.in_flight)

-- the runs of a rule that have an action in flight
abbrev pub flying_runs : String → List Run → ℕ
flying_runs rule runs = count (λ r. is_flying r && r.rule == rule) runs

-- A run of a sequence: one action in flight while it is open, none afterwards.
abbrev pub IsSequence : Run → Type 0
IsSequence r = (length r.in_flight ≤ 1) × (is_flying r ≡ r.is_open)

-- Every trigger is of a rule that runs its actions one after another.
abbrev pub IsSequential : Input → Type 0
IsSequential (trigger rule) = has_delays rule.actions ≡ true
IsSequential (settled n k st) = Unit

launch-IsSequence :
    (n : ℕ) (rule : String) (acts : List Action) → IsSequence (launch n rule true acts)
launch-IsSequence n rule [] = (omega arith, refl)
launch-IsSequence n rule (a ∷ rest) = (omega arith, refl)

length-take_out :
    (k : ℕ) (xs : List Action) → k < length xs → suc (length (take_out k xs)) ≡ length xs
length-take_out k [] h = elim h [ ]
length-take_out zero (x ∷ xs) h = refl
length-take_out (suc k) (x ∷ xs) h = omega (arith, length-take_out k xs)

step_run-IsSequence :
    (k : ℕ) (st : Status) (r : Run) → IsSequence r → IsSequence (step_run k st r).0
unfolding step_run
step_run-IsSequence k st r h = ground (arith, length-take_out k r.in_flight)

step_runs-IsSequence :
    (n k : ℕ) (st : Status) (rs : List Run)
    → All IsSequence rs
    → All IsSequence (step_runs n k st rs).0
unfolding step_runs
step_runs-IsSequence n k st [] h = tt
step_runs-IsSequence n k st (r ∷ rs) h =
    ground (arith, step_run-IsSequence k st r h.0, step_runs-IsSequence n k st rs h.1)

All-append {ℓ} :
    {A : Type ℓ} (P : A → Type 0) (xs : List A) (x : A) → All P xs → P x → All P (xs ++ x ∷ [])
All-append P [] x h k = (k, tt)
All-append P (y ∷ xs) x h k = (h.0, All-append P xs x h.1 k)

runs-settle_if_closed :
    (b : Bool) (rule : String) (st : Status) (e : Engine)
    → (settle_if_closed b rule st e).runs ≡ e.runs
runs-settle_if_closed true rule st e = refl
runs-settle_if_closed false rule st e = refl

feed-IsSequence :
    (i : Input) (e : Engine)
    → IsSequential i
    → All IsSequence e.runs
    → All IsSequence (feed i e).runs
unfolding execute_actions action_settled
feed-IsSequence (trigger rule) e s h = elim (Bool-cases (has e.executing_rules rule.id)) [
  | inl busy ↦ rw busy h
  | inr free ↦
      rw (free, s, runs-settle_if_closed)
        (All-append IsSequence e.runs _ h (launch-IsSequence e.next_run rule.id rule.actions))
]
feed-IsSequence (settled n k st) e s h = elim (Option-cases (step_runs n k st e.runs).1) [
  | inl same ↦ ground (arith, step_runs-IsSequence n k st e.runs h)
  | inr (out, done) ↦ ground (arith, step_runs-IsSequence n k st e.runs h)
]

feed_all-IsSequence :
    (inputs : List Input) (e : Engine)
    → All IsSequential inputs
    → All IsSequence e.runs
    → All IsSequence (feed_all inputs e).runs
feed_all-IsSequence [] e s h = h
feed_all-IsSequence (i ∷ rest) e s h =
    feed_all-IsSequence rest (feed i e) s.1 (feed-IsSequence i e s.0 h)

flying-eq-open :
    (rule : String) (rs : List Run) → All IsSequence rs → flying_runs rule rs ≡ open_runs rule rs
flying-eq-open rule [] h = refl
flying-eq-open rule (r ∷ rs) h = ground (arith, flying-eq-open rule rs h.1)

-- Where every triggered rule has a delay, so that its actions go one after another, no two runs of a
-- rule ever have actions in flight at the same time, whatever settles in whatever order.
pub sequential_no_overlap :
    (inputs : List Input) (rule : String)
    → All IsSequential inputs
    → flying_runs rule (feed_all inputs idle).runs ≤ 1
sequential_no_overlap inputs rule s =
    let e = feed_all inputs idle in
    ground (
      arith,
      flying-eq-open rule e.runs (feed_all-IsSequence inputs idle s tt),
      (feed_all-Inv inputs).exclusive rule,
    )

-- For every rule without delays and with two actions or more: after its first action fails, the
-- next trigger starts a second run while actions of the first are in flight.
pub failure_lets_runs_overlap :
    (rule : Rule) (a b : Action) (rest : List Action)
    → rule.actions ≡ a ∷ b ∷ rest
    → has_delays rule.actions ≡ false
    → flying_runs rule.id
        (feed_all (trigger rule ∷ settled 0 0 error ∷ trigger rule ∷ []) idle).runs
      ≡ 2
unfolding execute_actions action_settled add remove step_run
failure_lets_runs_overlap rule a b rest acts delays =
    rw (delays, acts) (ground (arith, eq_refl rule.id))
