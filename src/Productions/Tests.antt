-- ===== src/Productions/Tests.antt =====
-- Runs of the production services on a table held as a list, and instances of the theorems.
use live_ops_backend.Prelude.{◌≡◌, refl, true, false, List, [], ◌∷◌, none, ok, World, ◌↔◌}
use live_ops_backend.Prelude.Map.{get}
use live_ops_backend.Prelude.Table.{Table, list_table}
use live_ops_backend.Productions.Transition.{
  ProductionStatus, setup, active, name, assert_valid_transition,
}
use live_ops_backend.Productions.Transition.Legal.{
  ◌⟶◌, assert_valid_transition_sound, assert_valid_transition_iff,
}
use live_ops_backend.Productions.State.{
  Production, Event, obs, update_state, validate_engine_connection, with_status,
}
use live_ops_backend.Productions.State.Update.{Changed, update_state_sound}

abbrev table : Table Production
table = list_table (λ p. p.id)

abbrev show : Production
show = record {
  id = "p1";
  status = setup;
  engine_type = obs;
  is_rehearsal = false;
  deleted_at = none;
  obs_connections = false ∷ true ∷ [];
  vmix_connection = none;
}

abbrev start : World (List Production) Event
start = record { db = show ∷ []; events = [] }

goes_live : (update_state table "p1" active start).0 ≡ ok (with_status active show)
unfolding update_state validate_engine_connection assert_valid_transition get
goes_live = refl

sound_example :
    (s : ProductionStatus) × (t : ProductionStatus) × ("SETUP" ≡ name s)
    × ("ACTIVE" ≡ name t)
    × (s ⟶ t)
unfolding assert_valid_transition get
sound_example = assert_valid_transition_sound "SETUP" "ACTIVE" refl

iff_example : (assert_valid_transition (name setup) (name active) ≡ ok tt) ↔ (setup ⟶ active)
iff_example = assert_valid_transition_iff setup active

update_state_sound_example :
    Changed table "p1" active start
      (update_state table "p1" active start).1
      (with_status active show)
unfolding update_state validate_engine_connection assert_valid_transition get
update_state_sound_example =
    update_state_sound table "p1" active start (update_state table "p1" active start).1
      (with_status active show) refl
