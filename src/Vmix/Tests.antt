-- ===== src/Vmix/Tests.antt =====
-- A vMix that answers once and then no more.
use live_ops_backend.Prelude.{
  ◌≤◌, String, ◌≡◌, refl, true, false, List, [], ◌∷◌, ◌++◌, none, some, arith, All,
}
use live_ops_backend.Prelude.Map.{get}
use live_ops_backend.Guards.{codes}
use live_ops_backend.Vmix.{Status, Vmix, new_instance, connect_vmix, stop_polling, is_connected}
use live_ops_backend.Vmix.Poll.{poll_succeeded}
use live_ops_backend.Vmix.Sustained.{
  Poll, is_up, changes, reported, poll_all, failures, failing_since, is_down,
}
use live_ops_backend.Vmix.Sustained.Reported.{alternates, poll_all-refines}
use live_ops_backend.Vmix.Stale.{stopped_poll_reports}
use live_ops_backend.Vmix.ApiUrl.{get_api_url, strip_start, strip_end}

abbrev status : Status String String
status = record {
  active = 1;
  preview = 2;
  streaming = false;
  recording = false;
  external = false;
  multi_corder = false;
  inputs = "camera" ∷ [];
  audio = "master";
}

abbrev start : Vmix String String
start = record {
  connections = [];
  heap = λ r. new_instance "http://studio:8088";
  production_of = λ r. "p1";
  ticking = λ r. false;
  next = 0;
  events = [];
}

-- the last poll first: the third failure in a row comes five seconds after the first
abbrev history : List (Poll String String)
history =
    record { at = 7500; reply = none }
    ∷ record { at = 4000; reply = none }
    ∷ record { at = 2500; reply = none }
    ∷ record { at = 1000; reply = some (status, 20) }
    ∷ []

abbrev history_late : All (λ (q : Poll String String). 1 ≤ q.at) history
history_late = (omega arith, (omega arith, (omega arith, (omega arith, tt))))

history-changes : changes history ≡ true ∷ false ∷ []
unfolding changes is_up is_down failures failing_since
history-changes = refl

poll_all-refines_example :
    (((poll_all 0 history start).heap 0).is_connected ≡ is_up history)
    × (reported (poll_all 0 history start).events ≡ reported start.events ++ changes history)
    × (alternates false (changes history) ≡ true)
poll_all-refines_example = poll_all-refines 0 history start "http://studio:8088" refl history_late

stopped_poll_reports_example :
    let stopped = stop_polling "p1" (connect_vmix "p1" "studio:8088" none start) in
    let m = poll_succeeded start.next status 4000 20 stopped in
    (reported m.events ≡ reported start.events ++ false ∷ true ∷ []) × (is_connected "p1" m ≡ false)
unfolding get
stopped_poll_reports_example =
    stopped_poll_reports "p1" "studio:8088" none status 4000 20 start refl

api_of_studio : get_api_url (codes " studio:8088/ ") ≡ codes "http://studio:8088/api"
unfolding get_api_url strip_start strip_end
api_of_studio = refl
