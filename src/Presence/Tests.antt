-- ===== src/Presence/Tests.antt =====
-- Two clients, a disconnect and a timer; instances of the theorems about presence.
use live_ops_backend.Prelude.{
  ◌≡◌, refl, String, ◌==◌, false, ◌||◌, List, [], ◌∷◌, none, some, any, is_some, map,
}
use live_ops_backend.Prelude.Map.{get, set, delete, add, remove}
use live_ops_backend.Presence.{
  Presence, UserPresence, Timer, empty, sockets_in, upsert_presence, remove_presence, expire,
  set_server, get_presence_for_production, unique_members, get_inactive_sockets, leave_all,
  clear_timeout,
}
use live_ops_backend.Presence.Invariant.{Inv}
use live_ops_backend.Presence.Upkeep.{Op, upsert, run_all, run_all-Inv}
use live_ops_backend.Presence.Members.{has_socket, is_waiting, unique_members_lem}
use live_ops_backend.Presence.Grace.{upsert_stops_timers}

abbrev ana : UserPresence
ana = record {
  user_id = "ana";
  user_name = "Ana";
  role_id = "";
  role_name = "Viewer";
  last_seen = 0;
  status = "IDLE";
}

abbrev arrive : List Op
arrive = Op.serve ∷ upsert 10 "c1" ana (some "p1") ∷ []

abbrev online : Presence
online = run_all arrive empty

abbrev gone : List Op
gone = Op.serve ∷ upsert 10 "c1" ana (some "p1") ∷ Op.remove "c1" ∷ []

abbrev statuses : List UserPresence → List String
statuses = map (λ (d : UserPresence). d.status)

listed_while_away :
    statuses (get_presence_for_production (remove_presence "c1" online) "p1") ≡ "RECONNECTING" ∷ []
unfolding get_presence_for_production upsert_presence remove_presence set_server get set add remove
    leave_all clear_timeout delete
listed_while_away = refl

offline_after_timer :
    (get_presence_for_production (run_all (gone) (expire 9 empty)) "p1"
      ≡ (record ana { last_seen = 10; status = "RECONNECTING" }) ∷ [])
    × (get_presence_for_production (expire 0 (remove_presence "c1" online)) "p1" ≡ [])
unfolding get_presence_for_production upsert_presence remove_presence set_server get set add remove
    leave_all clear_timeout delete expire
offline_after_timer = (refl, refl)

idle : get_inactive_sockets 70000 60000 online.active_sockets ≡ "c1" ∷ []
unfolding get_inactive_sockets upsert_presence set_server get set
idle = refl

run_all-Inv_example : Inv (run_all gone empty)
run_all-Inv_example = run_all-Inv gone

unique_members_example : is_some (get (unique_members online "p1") "ana") ≡ (
    has_socket online.active_sockets (sockets_in online.production_to_sockets "p1") "ana"
    || is_waiting "p1" online.reconnecting "ana")
unique_members_example = unique_members_lem online "p1" "ana"

upsert_stops_timers_example :
    any
      (λ (t : Timer). t.user == "ana")
      (upsert_presence 20 "c2" ana none (run_all gone empty)).timers
    ≡ false
upsert_stops_timers_example =
    upsert_stops_timers 20 "c2" ana none (run_all gone empty) (run_all-Inv gone) refl
