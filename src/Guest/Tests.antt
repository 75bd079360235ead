-- ===== src/Guest/Tests.antt =====
-- Two guests of a production.
use live_ops_backend.Prelude.{
  String, ◌≡◌, refl, true, List, [], ◌∷◌, Option, none, some, Outcome, ok,
}
use live_ops_backend.Prelude.Map.{get, set}
use live_ops_backend.Prelude.Table.{Table, list_table}
use live_ops_backend.Guest.{
  pending, Engine, obs, GuestInvitation, Command, no_config, with_status, program, slots_of,
  slots_from, put_on_air, air_all,
}
use live_ops_backend.Guest.Calls.{
  Guests, update_guest_slot, take_guest_program, get_guest_slots, emit_slots_updated,
}
use live_ops_backend.Guest.Calls.OnAir.{on_air}
use live_ops_backend.Guest.Calls.OnAir.Kept.{AllOneOnAir}
use live_ops_backend.Guest.Calls.OnAir.Sequences.{
  Request, to_program, to_preview, after_all, requests-AllOneOnAir,
}

abbrev invitations : Table GuestInvitation
invitations = list_table (λ (i : GuestInvitation). i.id)

abbrev find_production : String → Option Engine
find_production p = some obs

abbrev commands : String → Command → Outcome (Unit {0})
commands p c = ok tt

abbrev guest : String → GuestInvitation
guest id = record {
  id = id;
  token = id;
  guest_name = none;
  production_id = "p1";
  status = pending;
  expires_at = 1000;
}

abbrev two_guests : Guests invitations find_production commands
two_guests = record {
  db = record { invitations = guest "g1" ∷ guest "g2" ∷ []; configs = [] };
  events = [];
}

two_guests-AllOneOnAir : AllOneOnAir two_guests
unfolding slots_of get
two_guests-AllOneOnAir = record { one = λ p. record { same = λ a b on_a on_b. cc on_a } }

abbrev both : List Request
both = to_program "p1" "g1" ∷ to_preview "p1" "g2" ∷ to_program "p1" "g2" ∷ []

-- a patch puts a second slot on air beside the first
patched_beside :
    let w = (take_guest_program invitations find_production commands "p1" "g1" two_guests).1 in
    let w' =
      (update_guest_slot invitations find_production commands "p1" "g2"
        (with_status program no_config)
        w).1 in
    (on_air (slots_of "p1" w'.db.configs) "g1" ≡ true)
    × (on_air (slots_of "p1" w'.db.configs) "g2" ≡ true)
unfolding take_guest_program update_guest_slot get_guest_slots emit_slots_updated slots_of
    slots_from put_on_air air_all get set
patched_beside = (refl, refl)

requests-AllOneOnAir_example :
    AllOneOnAir (after_all invitations find_production commands both two_guests)
requests-AllOneOnAir_example =
    requests-AllOneOnAir invitations find_production commands both two_guests two_guests-AllOneOnAir
