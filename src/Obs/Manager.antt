-- ===== src/Obs/Manager.antt =====
-- The OBS connections: src/obs/obs-connection.manager.ts, and the listener for closed connections of
-- src/obs/obs-event-handler.ts. Instances are objects that the store, timers and calls in flight share,
-- so a heap holds them by reference; an instance's socket is its reference. What goes on outside, the
-- answers of OBS and the passing of time, are steps. What is read from OBS at the start, scene
-- events and polls are left out.
pub mod Calls
pub mod Pending
pub mod Stale
mod Tests
use live_ops_backend.Prelude.{
  ℕ, zero, suc, ◌+◌, ◌*◌, ◌^◌, String, ◌==◌, Bool, true, false, ◌&&◌, ◌||◌, List, [], ◌∷◌, ◌++◌,
  Option, none, some, if◌then◌else◌, eqb, leb, is_some, get_or,
}
use live_ops_backend.Prelude.Map.{get}
use live_ops_backend.Obs.{
  ObsInstance, ObsStateStore, set_connection, delete_connection, get_production_connection_ids,
  add_to_production, remove_production, set_primary, remove_primary,
}

-- the arguments of a connectObsById, which its callbacks hold
pub record Call : Type 0 where
  pub connection_id : String
  pub production_id : String
  pub url : String
  pub password : Option String

-- a timer that scheduleReconnect set, with the instance that its callback holds
pub record Timer : Type 0 where
  pub call : Call
  pub instance_ : ℕ
  pub delay : ℕ

-- where the call that made an instance stands: in `await obs.connect`, in
-- `await bootstrapInitialState`, or over
pub data Phase : Type 0 where
  connecting bootstrapping over : Phase

pub data Event : Type 0 where
  connection_state : String → Bool → Event
  connection_alert : String → String → ℕ → Event

abbrev pub Instance : Type 0
Instance = ObsInstance ℕ (Option String)

pub record Manager : Type 0 where
  pub store : ObsStateStore ℕ
  pub heap : ℕ → Instance
  pub calls : ℕ → Option Call
  pub phase : ℕ → Phase
  -- whether the socket has its listeners
  pub listening : ℕ → Bool
  pub next_instance : ℕ
  pub timers : ℕ → Option Timer
  pub next_timer : ℕ
  pub events : List Event

-- `f[k] = a`
abbrev pub put : {A : Type 0} → ℕ → A → (ℕ → A) → ℕ → A
put k a f j = if eqb j k then a else f j

abbrev pub emit : Event → Manager → Manager
emit e m = record m { events = m.events ++ e ∷ [] }

-- `clearTimeout`, of no timer where there is none
abbrev pub clear_timeout : Option ℕ → (ℕ → Option Timer) → ℕ → Option Timer
clear_timeout none timers = timers
clear_timeout (some h) timers = put h none timers

-- changes of an instance
abbrev pub change : ℕ → (Instance → Instance) → Manager → Manager
change r f m = record m { heap = put r (f (m.heap r)) m.heap }

abbrev pub without_intervals : Instance → Instance
without_intervals i = record i {
  stats_interval = false;
  heartbeat_interval = false;
  screenshot_interval = false;
}

unfoldable pub teardown_instance : String → ℕ → Manager → Manager
teardown_instance id r m = record m {
  timers = clear_timeout (m.heap r).reconnect_timeout m.timers;
  heap = put r (without_intervals (m.heap r)) m.heap;
  listening = put r false m.listening;
  store = delete_connection id m.store;
}

-- `Math.min(Math.pow(2, attempts) * 1000, 30_000)`
abbrev pub back_off : ℕ → ℕ
back_off attempts = let delay = 2 ^ attempts * 1000 in if leb delay 30000 then delay else 30000

abbrev pub schedule_for : Call → ℕ → Manager → Manager
schedule_for c r m =
    let attempts = suc (m.heap r).reconnect_attempts in
    record m {
      heap =
          put r
            (record (m.heap r) {
              reconnect_attempts = attempts;
              reconnect_timeout = some m.next_timer;
            })
            m.heap;
      timers =
          put m.next_timer (some (record { call = c; instance_ = r; delay = back_off attempts }))
            m.timers;
      next_timer = suc m.next_timer;
    }

unfoldable pub schedule_reconnect : Call → Manager → Manager
schedule_reconnect c m = elim (get m.store.connections c.connection_id) [
  | none ↦ m
  | some r ↦ if is_some (m.heap r).reconnect_timeout then m else schedule_for c r m
]

abbrev pub new_instance : ℕ → Call → ℕ → Instance
new_instance r c attempts = record {
  obs = r;
  url = c.url;
  password = c.password;
  reconnect_timeout = none;
  stats_interval = false;
  heartbeat_interval = false;
  screenshot_interval = false;
  is_connected = false;
  reconnect_attempts = attempts;
  last_state = none;
}

-- from addToProduction to the call of `obs.connect`
unfoldable pub open_instance : Call → Bool → ℕ → Manager → Manager
open_instance c is_primary attempts m =
    let added = add_to_production c.production_id c.connection_id m.store in
    let primary = if is_primary then set_primary c.production_id c.connection_id added else added in
    record m {
      store = set_connection c.connection_id m.next_instance primary;
      heap = put m.next_instance (new_instance m.next_instance c attempts) m.heap;
      calls = put m.next_instance (some c) m.calls;
      phase = put m.next_instance connecting m.phase;
      listening = put m.next_instance true m.listening;
      next_instance = suc m.next_instance;
    }

abbrev pub same_text : Option String → Option String → Bool
same_text none none = true
same_text (some s) (some t) = s == t
same_text _ _ = false

-- the connection is up or about to be tried again, with the same address and password
abbrev pub is_served : Call → Instance → Bool
is_served c i =
    (i.url == c.url && same_text i.password c.password)
    && (i.is_connected || is_some i.reconnect_timeout)

unfoldable pub connect_obs_by_id : Call → Bool → Manager → Manager
unfolding open_instance teardown_instance
connect_obs_by_id c is_primary m = elim (get m.store.connections c.connection_id) [
  | none ↦ open_instance c is_primary 0 m
  | some r ↦
      if is_served c (m.heap r)
      then m
      else open_instance c is_primary (m.heap r).reconnect_attempts
          (teardown_instance c.connection_id r m)
]
