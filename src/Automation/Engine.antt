-- ===== src/Automation/Engine.antt =====
-- Running rules: src/automation/automation-engine.service.ts. A run of `executeActions` is a frame;
-- what the event loop delivers (an action that settles) is an input. Log writes are taken to
-- succeed, and a delay before an action is part of the action.
pub mod Exclusive
pub mod Overlap
mod Tests
use live_ops_backend.Prelude.{
  ℕ, zero, suc, String, ◌==◌, Bool, true, false, not, ◌&&◌, List, [], ◌∷◌, ◌++◌, Option, none, some,
  if◌then◌else◌, any, filter, ltb, eqb, length,
}
use mathlib.Core.Option
use live_ops_backend.Prelude.Map.{add, remove, has}

pub record Action : Type 0 where
  pub id : String
  pub action_type : String
  -- `payload.delayMs`, 0 where it is no number
  pub delay_ms : ℕ

-- what `executeActions` reads of a rule
pub record Rule : Type 0 where
  pub id : String
  pub production_id : String
  pub name : String
  pub is_enabled : Bool
  pub actions : List Action

pub data Status : Type 0 where
  success error : Status

-- A call of `executeActions` that passed the guard: its actions that wait, those in flight, and
-- whether the call still is to return.
pub record Run : Type 0 where
  pub rid : ℕ
  pub rule : String
  pub queue : List Action
  pub in_flight : List Action
  pub is_open : Bool

pub record Engine : Type 0 where
  pub executing_rules : List String
  pub runs : List Run
  pub next_run : ℕ
  -- the execution log: rule and status
  pub log : List (String × Status)

abbrev pub has_delays : List Action → Bool
has_delays actions = any (λ a. ltb 0 a.delay_ms) actions

-- `finally`, after the log entry: the call returns
abbrev pub settle : String → Status → Engine → Engine
settle rule st e = record e {
  executing_rules = remove e.executing_rules rule;
  log = e.log ++ (rule, st) ∷ [];
}

abbrev pub add_run : Run → Engine → Engine
add_run r e = record e { runs = e.runs ++ r ∷ []; next_run = suc e.next_run }

-- with delays the actions go one after another, without them all at once
abbrev pub launch : ℕ → String → Bool → List Action → Run
launch n rule delays [] = record {
  rid = n;
  rule = rule;
  queue = [];
  in_flight = [];
  is_open = false;
}
launch n rule true (a ∷ rest) = record {
  rid = n;
  rule = rule;
  queue = rest;
  in_flight = a ∷ [];
  is_open = true;
}
launch n rule false (a ∷ rest) = record {
  rid = n;
  rule = rule;
  queue = [];
  in_flight = a ∷ rest;
  is_open = true;
}

abbrev pub settle_if_closed : Bool → String → Status → Engine → Engine
settle_if_closed true rule st e = e
settle_if_closed false rule st e = settle rule st e

-- `executeActions` up to its first wait
unfoldable pub execute_actions : Rule → Engine → Engine
execute_actions rule e =
    if has e.executing_rules rule.id
    then e
    else (let r = launch e.next_run rule.id (has_delays rule.actions) rule.actions in
        settle_if_closed r.is_open rule.id success
          (add_run r (record e { executing_rules = add e.executing_rules rule.id })))

-- in flight without the k-th action
abbrev pub take_out : ℕ → List Action → List Action
take_out k [] = []
take_out zero (a ∷ rest) = rest
take_out (suc k) (a ∷ rest) = a ∷ take_out k rest

-- what an open run does when an action succeeded: the next action of the sequence, or the return
abbrev pub proceed : List Action → List Action → Run → Run × Option Status
proceed [] [] r = (record r { in_flight = []; is_open = false }, some success)
proceed [] (a ∷ rest) r = (record r { in_flight = a ∷ []; queue = rest }, none)
proceed (b ∷ bs) queue r = (record r { in_flight = b ∷ bs }, none)

-- one action of a run settles; a failure ends the run, whose other actions go on
abbrev pub step_open : Bool → Status → List Action → Run → Run × Option Status
step_open false st left r = (record r { in_flight = left }, none)
step_open true error left r =
    (record r { in_flight = left; queue = []; is_open = false }, some error)
step_open true success left r = proceed left r.queue r

-- an input that names no action in flight changes nothing
unfoldable pub step_run : ℕ → Status → Run → Run × Option Status
step_run k st r =
    if ltb k (length r.in_flight)
    then step_open r.is_open st (take_out k r.in_flight) r
    else (r, none)

-- the k-th action in flight of run n settles
unfoldable pub step_runs : ℕ → ℕ → Status → List Run → List Run × Option (String × Status)
step_runs n k st [] = ([], none)
step_runs n k st (r ∷ rs) =
    let (rs', out) = step_runs n k st rs in
    let (r', done) = step_run k st r in
    if eqb r.rid n then (r' ∷ rs, Option.map (λ s. (r.rule, s)) done) else (r ∷ rs', out)

abbrev pub settle_out : Option (String × Status) → Engine → Engine
settle_out none e = e
settle_out (some (rule, st)) e = settle rule st e

unfoldable pub action_settled : ℕ → ℕ → Status → Engine → Engine
unfolding step_runs
action_settled n k st e =
    let (runs, out) = step_runs n k st e.runs in settle_out out (record e { runs = runs })

abbrev pub idle : Engine
idle = record { executing_rules = []; runs = []; next_run = 0; log = [] }

-- What reaches the engine, in order: a trigger, or an action that settles.
pub data Input : Type 0 where
  trigger : Rule → Input
  settled : ℕ → ℕ → Status → Input

abbrev pub feed : Input → Engine → Engine
feed (trigger rule) e = execute_actions rule e
feed (settled n k st) e = action_settled n k st e

abbrev pub feed_all : List Input → Engine → Engine
feed_all [] e = e
feed_all (i ∷ rest) e = feed_all rest (feed i e)
