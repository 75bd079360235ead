-- ===== src/Obs.antt =====
-- The store of OBS connections: src/obs/obs-state.store.ts. The websocket of a connection and its last
-- known state are parameters.
pub mod Connected
pub mod Manager
mod Tests
use live_ops_backend.Prelude.{
  ℕ, String, ◌==◌, Bool, true, false, List, [], ◌∷◌, Option, none, some, if◌then◌else◌, includes,
}
use live_ops_backend.Prelude.Map.{Map, get, set, delete, add}

pub record ObsInstance (Socket LastState : Type 0) : Type 0 where
  pub obs : Socket
  pub url : String
  pub password : Option String
  -- the handle of the timer
  pub reconnect_timeout : Option ℕ
  -- whether the interval is set
  pub stats_interval : Bool
  pub heartbeat_interval : Bool
  pub screenshot_interval : Bool
  pub is_connected : Bool
  pub reconnect_attempts : ℕ
  pub last_state : LastState

-- `{ isConnected, ...lastState }`, without a state for a connection that is not there
pub record ObsState (LastState : Type 0) : Type 0 where
  pub is_connected : Bool
  pub last_state : Option LastState

pub record ObsConnection : Type 0 where
  pub connection_id : String
  pub is_connected : Bool
  pub url : String

-- What it holds for a connection is an instance, or for the connection manager a reference to one.
pub record ObsStateStore (Instance : Type 0) : Type 0 where
  pub connections : Map Instance
  pub production_map : Map (List String)
  pub primary_map : Map String

-- what is set for a key, unless it is the empty text
abbrev pub truthy : Option String → Option String
truthy none = none
truthy (some id) = if id == "" then none else some id

abbrev pub ids_or_empty : Option (List String) → List String
ids_or_empty none = []
ids_or_empty (some ids) = ids

module _ {Instance : Type 0} where
  abbrev pub set_connection : String → Instance → ObsStateStore Instance → ObsStateStore Instance
  set_connection id instance_ s = record s { connections = set s.connections id instance_ }

  abbrev pub delete_connection : String → ObsStateStore Instance → ObsStateStore Instance
  delete_connection id s = record s { connections = delete s.connections id }

  abbrev pub get_production_connection_ids : String → ObsStateStore Instance → List String
  get_production_connection_ids p s = ids_or_empty (get s.production_map p)

  unfoldable pub add_to_production :
      String → String → ObsStateStore Instance → ObsStateStore Instance
  add_to_production p id s = record s {
    production_map = set s.production_map p (add (get_production_connection_ids p s) id);
  }

  abbrev pub remove_production : String → ObsStateStore Instance → ObsStateStore Instance
  remove_production p s = record s { production_map = delete s.production_map p }

  abbrev pub set_primary : String → String → ObsStateStore Instance → ObsStateStore Instance
  set_primary p id s = record s { primary_map = set s.primary_map p id }

  abbrev pub get_primary : String → ObsStateStore Instance → Option String
  get_primary p s = get s.primary_map p

  abbrev pub remove_primary : String → ObsStateStore Instance → ObsStateStore Instance
  remove_primary p s = record s { primary_map = delete s.primary_map p }

module _ {Socket LastState : Type 0} where
  -- `if (inst?.isConnected) return inst.obs`
  abbrev pub if_connected : Option (ObsInstance Socket LastState) → Option Socket → Option Socket
  if_connected none other = other
  if_connected (some i) other = if i.is_connected then some i.obs else other

  unfoldable pub first_connected : Map (ObsInstance Socket LastState) → List String → Option Socket
  first_connected m [] = none
  first_connected m (id ∷ ids) = let rest = first_connected m ids in if_connected (get m id) rest

  abbrev pub via_primary :
      Map (ObsInstance Socket LastState) → Option String → Option Socket → Option Socket
  via_primary m none other = other
  via_primary m (some id) other = if_connected (get m id) other

  unfoldable pub get_instance :
      String → ObsStateStore (ObsInstance Socket LastState) → Option Socket
  unfolding first_connected
  get_instance p s =
      via_primary s.connections (truthy (get_primary p s))
        (first_connected s.connections (get_production_connection_ids p s))

  -- `ids.map(get).find(Boolean)`
  unfoldable pub first_present :
      Map (ObsInstance Socket LastState) → List String → Option (ObsInstance Socket LastState)
  first_present m [] = none
  first_present m (id ∷ ids) =
      let rest = first_present m ids in elim (get m id) [ none ↦ rest | some i ↦ some i ]

  abbrev pub shown : Option (ObsInstance Socket LastState) → ObsState LastState
  shown none = record { is_connected = false; last_state = none }
  shown (some i) = record { is_connected = i.is_connected; last_state = some i.last_state }

  abbrev pub watched :
      Map (ObsInstance Socket LastState)
      → Option String
      → List String
      → Option (ObsInstance Socket LastState)
  watched m none ids = first_present m ids
  watched m (some id) ids = get m id

  unfoldable pub get_obs_state :
      String → ObsStateStore (ObsInstance Socket LastState) → ObsState LastState
  unfolding first_present
  get_obs_state p s =
      shown (watched s.connections (truthy (get_primary p s)) (get_production_connection_ids p s))

  abbrev pub get_connection_state :
      String → ObsStateStore (ObsInstance Socket LastState) → ObsState LastState
  get_connection_state id s = shown (get s.connections id)

  abbrev pub listed : String → Option (ObsInstance Socket LastState) → ObsConnection
  listed id none = record { connection_id = id; is_connected = false; url = "" }
  listed id (some i) = record { connection_id = id; is_connected = i.is_connected; url = i.url }

  unfoldable pub list_from : Map (ObsInstance Socket LastState) → List String → List ObsConnection
  list_from m [] = []
  list_from m (id ∷ ids) = listed id (get m id) ∷ list_from m ids

  abbrev pub list_connections :
      String → ObsStateStore (ObsInstance Socket LastState) → List ObsConnection
  list_connections p s = list_from s.connections (get_production_connection_ids p s)
