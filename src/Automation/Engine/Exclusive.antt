-- ===== src/Automation/Engine/Exclusive.antt =====
-- A rule never has two open runs, and every run that returned is logged once.
use live_ops_backend.Prelude.{
  ℕ, suc, ◌+◌, String, ◌==◌, ◌≡◌, refl, Bool, true, false, ◌&&◌, List, [], ◌∷◌, ◌++◌, Option, none,
  some, arith, eq_iff, count, length, inl, inr, Option-cases, ap,
}
use live_ops_backend.Prelude.Map.{has, add, has-add, has-remove}
use live_ops_backend.Automation.Engine.{
  Action, Rule, Run, Engine, Status, success, Input, trigger, settled, launch, has_delays, step_run,
  step_runs, execute_actions, action_settled, idle, feed, feed_all,
}

abbrev pub open_runs : String → List Run → ℕ
open_runs rule runs = count (λ r. r.is_open && r.rule == rule) runs

abbrev pub bit : Bool → ℕ
bit true = 1
bit false = 0

abbrev all_open : List Run → ℕ
all_open runs = count (λ r. r.is_open) runs

pub record Inv (e : Engine) : Type 0 where
  pub exclusive : (rule : String) → open_runs rule e.runs ≡ bit (has e.executing_rules rule)
  pub logged : length e.log + all_open e.runs ≡ length e.runs

open_runs-append :
    (rule : String) (rs : List Run) (r : Run)
    → open_runs rule (rs ++ r ∷ []) ≡ open_runs rule rs + bit (r.is_open && r.rule == rule)
open_runs-append rule [] r = ground arith
open_runs-append rule (x ∷ rs) r = ground (arith, open_runs-append rule rs r)

all_open-append : (rs : List Run) (r : Run) → all_open (rs ++ r ∷ []) ≡ all_open rs + bit r.is_open
all_open-append [] r = ground arith
all_open-append (x ∷ rs) r = ground (arith, all_open-append rs r)

length-snoc {ℓ} : {A : Type ℓ} (xs : List A) (x : A) → length (xs ++ x ∷ []) ≡ suc (length xs)
length-snoc [] x = refl
length-snoc (y ∷ xs) x = ap suc (length-snoc xs x)

-- 1 if this run of the rule returned
abbrev returned : Option (String × Status) → String → ℕ
returned none rule = 0
returned (some (r, st)) rule = bit (r == rule)

abbrev some_bit {ℓ} : {A : Type ℓ} → Option A → ℕ
some_bit none = 0
some_bit (some _) = 1

step_run_rule : (k : ℕ) (st : Status) (r : Run) → (step_run k st r).0.rule ≡ r.rule
unfolding step_run
step_run_rule k st r = ground arith

step_run_open :
    (k : ℕ) (st : Status) (r : Run)
    → bit (step_run k st r).0.is_open + some_bit (step_run k st r).1 ≡ bit r.is_open
unfolding step_run
step_run_open k st r = ground arith

step_runs_open :
    (n k : ℕ) (st : Status) (rule : String) (rs : List Run)
    → open_runs rule (step_runs n k st rs).0 + returned (step_runs n k st rs).1 rule
      ≡ open_runs rule rs
unfolding step_runs
step_runs_open n k st rule [] = refl
step_runs_open n k st rule (r ∷ rs) =
    ground (arith, step_runs_open n k st rule rs, step_run_rule k st r, step_run_open k st r)

step_runs_all :
    (n k : ℕ) (st : Status) (rs : List Run)
    → (all_open (step_runs n k st rs).0 + some_bit (step_runs n k st rs).1 ≡ all_open rs)
      × (length (step_runs n k st rs).0 ≡ length rs)
unfolding step_runs
step_runs_all n k st [] = (refl, refl)
step_runs_all n k st (r ∷ rs) = ground (arith, step_runs_all n k st rs, step_run_open k st r)

launch_rule :
    (n : ℕ) (rule : String) (d : Bool) (acts : List Action) → (launch n rule d acts).rule ≡ rule
launch_rule n rule d [] = refl
launch_rule n rule true (a ∷ rest) = refl
launch_rule n rule false (a ∷ rest) = refl

execute_actions-exclusive :
    (rule : Rule) (e : Engine)
    → Inv e
    → (r : String)
    → open_runs r (execute_actions rule e).runs
      ≡ bit (has (execute_actions rule e).executing_rules r)
unfolding execute_actions
execute_actions-exclusive rule e h r =
    let new = launch e.next_run rule.id (has_delays rule.actions) rule.actions in
    ground (
      arith,
      h.exclusive r,
      h.exclusive rule.id,
      open_runs-append r e.runs new,
      launch_rule e.next_run rule.id (has_delays rule.actions) rule.actions,
      has-add e.executing_rules rule.id r,
      has-remove (add e.executing_rules rule.id) rule.id r,
      eq_iff rule.id r,
    )

execute_actions-logged :
    (rule : Rule) (e : Engine)
    → Inv e
    → length (execute_actions rule e).log + all_open (execute_actions rule e).runs
      ≡ length (execute_actions rule e).runs
unfolding execute_actions
execute_actions-logged rule e h =
    let new = launch e.next_run rule.id (has_delays rule.actions) rule.actions in
    ground (
      arith,
      h.logged,
      all_open-append e.runs new,
      length-snoc e.runs new,
      length-snoc e.log (rule.id, success),
    )

action_settled-exclusive :
    (n k : ℕ) (st : Status) (e : Engine)
    → Inv e
    → (r : String)
    → open_runs r (action_settled n k st e).runs
      ≡ bit (has (action_settled n k st e).executing_rules r)
unfolding action_settled
action_settled-exclusive n k st e h r = elim (Option-cases (step_runs n k st e.runs).1) [
  | inl same ↦ ground (arith, h.exclusive r, step_runs_open n k st r e.runs)
  | inr (out, done) ↦ ground (
    arith,
    h.exclusive r,
    step_runs_open n k st r e.runs,
    has-remove e.executing_rules out.0 r,
    eq_iff out.0 r,
  )
]

action_settled-logged :
    (n k : ℕ) (st : Status) (e : Engine)
    → Inv e
    → length (action_settled n k st e).log + all_open (action_settled n k st e).runs
      ≡ length (action_settled n k st e).runs
unfolding action_settled
action_settled-logged n k st e h = elim (Option-cases (step_runs n k st e.runs).1) [
  | inl same ↦ ground (arith, h.logged, step_runs_all n k st e.runs)
  | inr (out, done) ↦ ground (arith, h.logged, step_runs_all n k st e.runs, length-snoc e.log out)
]

feed-Inv : (i : Input) (e : Engine) → Inv e → Inv (feed i e)
feed-Inv (trigger rule) e h = record {
  exclusive = execute_actions-exclusive rule e h;
  logged = execute_actions-logged rule e h;
}
feed-Inv (settled n k st) e h = record {
  exclusive = action_settled-exclusive n k st e h;
  logged = action_settled-logged n k st e h;
}

feed_all-Inv_from : (inputs : List Input) (e : Engine) → Inv e → Inv (feed_all inputs e)
feed_all-Inv_from [] e h = h
feed_all-Inv_from (i ∷ rest) e h = feed_all-Inv_from rest (feed i e) (feed-Inv i e h)

-- Whatever triggers arrive and actions settle, in any order: a rule has one open run while it is in
-- `executingRules` and none otherwise, and the runs that are not open are as many as the log entries.
pub feed_all-Inv : (inputs : List Input) → Inv (feed_all inputs idle)
feed_all-Inv inputs =
    feed_all-Inv_from inputs idle (record { exclusive = λ r. refl; logged = refl })
