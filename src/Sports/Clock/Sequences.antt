-- ===== src/Sports/Clock/Sequences.antt =====
-- Any sequence of calls and ticks.
use live_ops_backend.Prelude.{ℕ, String, ◌≡◌, refl, List, [], ◌∷◌, none}
use live_ops_backend.Prelude.Map.{get}
use live_ops_backend.Sports.{
  SportsMatch, Sports, match_of, update_match, reset_timer, toggle_timer, tick,
}
use live_ops_backend.Sports.Clock.{
  Inv, changed-Inv, broadcast_update-Inv, toggle_timer-Inv, tick-Inv,
}

-- an update here leaves `is_running` alone
pub data Step : Type 0 where
  toggle reset : String → Step
  ticked : ℕ → Step
  update :
      String
      → (f : SportsMatch → SportsMatch) → ((m : SportsMatch) → (f m).is_running ≡ m.is_running)
      → Step

abbrev pub no_matches : Sports
no_matches = record {
  matches = [];
  timers = [];
  intervals = λ h. none;
  next_interval = 0;
  events = [];
}

module _ (id_of : String → String) where
  abbrev pub after : Step → Sports → Sports
  after (toggle p) s = toggle_timer id_of p s
  after (reset p) s = reset_timer id_of p s
  after (ticked h) s = tick id_of h s
  after (update p f keep) s = update_match id_of p f s

  abbrev pub after_all : List Step → Sports → Sports
  after_all [] s = s
  after_all (step ∷ steps) s = after_all steps (after step s)

  after-Inv : (step : Step) (s : Sports) → Inv id_of s → Inv id_of (after step s)
  unfolding update_match reset_timer
  after-Inv (toggle p) s inv = toggle_timer-Inv id_of p s inv
  after-Inv (ticked h) s inv = tick-Inv id_of h s inv
  after-Inv (reset p) s inv =
      broadcast_update-Inv id_of p _
        (changed-Inv id_of p (λ m. record m { timer = 0 }) s (λ m. refl) inv)
  after-Inv (update p f keep) s inv =
      broadcast_update-Inv id_of p _ (changed-Inv id_of p f s keep inv)

  no_matches-Inv : Inv id_of no_matches
  unfolding match_of get
  no_matches-Inv = record {
    held = λ p h found. cc found;
    owned = λ h p found. cc found;
    numbered = λ h p found. cc found;
    shown = λ p. refl;
  }

  after_all-from : (steps : List Step) (s : Sports) → Inv id_of s → Inv id_of (after_all steps s)
  after_all-from [] s inv = inv
  after_all-from (step ∷ steps) s inv = after_all-from steps (after step s) (after-Inv step s inv)

  -- From the start, after any sequence of toggles, resets, ticks, and updates that leave `is_running`
  -- alone: a production's clock has an interval exactly when its match says that it is running, and
  -- no interval but that one.
  pub clock-Inv : (steps : List Step) → Inv id_of (after_all steps no_matches)
  clock-Inv steps = after_all-from steps no_matches no_matches-Inv
