-- ===== src/Sports/Tests.antt =====
-- A clock that is started, ticks twice, and is stopped.
use live_ops_backend.Prelude.{String, ◌≡◌, refl, true, false, List, [], ◌∷◌, none}
use live_ops_backend.Prelude.Map.{get, set, delete}
use live_ops_backend.Sports.{match_of, with_match, toggle_timer, clear_timer, tick, update_match}
use live_ops_backend.Sports.Clock.{Inv}
use live_ops_backend.Sports.Clock.Sequences.{Step, toggle, ticked, no_matches, after_all, clock-Inv}

abbrev same : String → String
same t = t

abbrev half : List Step
half = toggle "p1" ∷ ticked 0 ∷ ticked 0 ∷ toggle "p1" ∷ ticked 0 ∷ []

stopped_at_two :
    let m = match_of same "p1" (after_all same half no_matches) in
    (m.timer ≡ 2) × (m.is_running ≡ false)
unfolding match_of with_match toggle_timer clear_timer tick get set delete
stopped_at_two = (refl, refl)

-- an update that sets `is_running` starts no interval, and the next toggle stops the clock
update_starts_nothing :
    let s = update_match same "p1" (λ m. record m { is_running = true }) no_matches in
    (get s.timers "p1" ≡ none)
    × ((match_of same "p1" s).is_running ≡ true)
    × ((match_of same "p1" (toggle_timer same "p1" s)).is_running ≡ false)
unfolding match_of with_match toggle_timer clear_timer update_match get set delete
update_starts_nothing = (refl, refl, refl)

clock-Inv_example : Inv same (after_all same half no_matches)
clock-Inv_example = clock-Inv same half
