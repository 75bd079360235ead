-- ===== src/Obs/Manager/Calls.antt =====
-- The calls of src/obs/obs-connection.manager.ts, and what happens to the instances between them: the
-- answers of OBS, closed sockets, and timers.
use live_ops_backend.Prelude.{
  ℕ, String, Bool, true, false, ◌&&◌, List, [], ◌∷◌, Option, none, some, if◌then◌else◌, leb, get_or,
  map,
}
use live_ops_backend.Prelude.Map.{get}
use live_ops_backend.Obs.{get_production_connection_ids, remove_production, remove_primary}
use live_ops_backend.Obs.Manager.{
  Call, Phase, connecting, bootstrapping, over, connection_state, connection_alert, Instance,
  Manager, put, emit, clear_timeout, change, teardown_instance, schedule_reconnect,
  connect_obs_by_id,
}

abbrev pub is_connecting : Phase → Bool
is_connecting connecting = true
is_connecting _ = false

abbrev pub is_bootstrapping : Phase → Bool
is_bootstrapping bootstrapping = true
is_bootstrapping _ = false

-- `await obs.connect` returned: up to bootstrapInitialState
abbrev pub mark_connected : Call → ℕ → Manager → Manager
mark_connected c r m = emit (connection_state c.production_id true) (record m {
  timers = clear_timeout (m.heap r).reconnect_timeout m.timers;
  heap =
      put r
        (record (m.heap r) {
          is_connected = true;
          reconnect_attempts = 0;
          reconnect_timeout = none;
        })
        m.heap;
  phase = put r bootstrapping m.phase;
})

unfoldable pub connected : ℕ → Manager → Manager
connected r m = elim (m.calls r) [
  | none ↦ m
  | some c ↦ if is_connecting (m.phase r) then mark_connected c r m else m
]

-- `await obs.connect` threw
unfoldable pub refused : ℕ → Manager → Manager
unfolding schedule_reconnect
refused r m = elim (m.calls r) [
  | none ↦ m
  | some c ↦
      if is_connecting (m.phase r)
      then schedule_reconnect c (record m { phase = put r over m.phase })
      else m
]

-- bootstrapInitialState returned, with the state that it set, if it set one
abbrev pub with_intervals : Option String → Instance → Instance
with_intervals state i = record i {
  last_state = elim state [ none ↦ i.last_state | some s ↦ some s ];
  stats_interval = true;
  heartbeat_interval = true;
  screenshot_interval = true;
}

unfoldable pub bootstrapped : Option String → ℕ → Manager → Manager
bootstrapped state r m =
    if is_bootstrapping (m.phase r)
    then change r (with_intervals state) (record m { phase = put r over m.phase })
    else m

-- the listener for ConnectionClosed
abbrev pub alert : Call → ℕ → Manager → Manager
alert c r m =
    if leb 10 (m.heap r).reconnect_attempts
    then emit (connection_alert c.production_id c.connection_id (m.heap r).reconnect_attempts) m
    else m

abbrev pub mark_closed : Instance → Instance
mark_closed i = record i { is_connected = false }

unfoldable pub connection_closed : ℕ → Manager → Manager
unfolding schedule_reconnect
connection_closed r m = elim (m.calls r) [
  | none ↦ m
  | some c ↦
      if m.listening r
      then alert c r (
          schedule_reconnect c
            (emit (connection_state c.production_id false) (change r mark_closed m)))
      else m
]

-- a heartbeat that OBS did not answer
unfoldable pub heartbeat_failed : ℕ → Manager → Manager
heartbeat_failed r m =
    if (m.heap r).heartbeat_interval && (m.heap r).is_connected then change r mark_closed m else m

abbrev pub without_timeout : Instance → Instance
without_timeout i = record i { reconnect_timeout = none }

-- the callback of a timer
unfoldable pub reconnect : ℕ → Manager → Manager
unfolding connect_obs_by_id
reconnect h m = elim (m.timers h) [
  | none ↦ m
  | some t ↦
      connect_obs_by_id t.call false
        (change t.instance_ without_timeout (record m { timers = put h none m.timers }))
]

-- the loop of disconnectObs
unfoldable pub teardown_ids : List String → Manager → Manager
unfolding teardown_instance
teardown_ids [] m = m
teardown_ids (id ∷ ids) m =
    teardown_ids ids
      (elim (get m.store.connections id) [ none ↦ m | some r ↦ teardown_instance id r m ])

unfoldable pub disconnect_obs : String → Manager → Manager
unfolding teardown_ids
disconnect_obs p m =
    let closed = teardown_ids (get_production_connection_ids p m.store) m in
    emit (connection_state p false)
      (record closed { store = remove_primary p (remove_production p closed.store) })

-- onModuleDestroy: the iterator reads the store as it goes, so an entry is what its key has then
unfoldable pub on_module_destroy : Manager → Manager
unfolding teardown_ids
on_module_destroy m = teardown_ids (map (λ e. e.0) m.store.connections) m

abbrev pub restarted : Instance → Instance
restarted i = record i { reconnect_attempts = 0; reconnect_timeout = none }

unfoldable pub manual_reconnect : String → String → Manager → Manager
unfolding connect_obs_by_id
manual_reconnect id p m = elim (get m.store.connections id) [
  | none ↦ m
  | some r ↦
      connect_obs_by_id
        (record {
          connection_id = id;
          production_id = p;
          url = (m.heap r).url;
          password = (m.heap r).password;
        })
        true
        (change r restarted
          (record m { timers = clear_timeout (m.heap r).reconnect_timeout m.timers }))
]

-- connectObs: `primary` is the id of the production's primary connection in the database
unfoldable pub connect_obs : Option String → String → String → Option String → Manager → Manager
unfolding connect_obs_by_id
connect_obs primary p url password =
    connect_obs_by_id
      (record {
        connection_id = get_or primary p;
        production_id = p;
        url = url;
        password = password;
      })
      true

-- loadAllConnections: the calls that the rows become
unfoldable pub load_all_connections : List (Call × Bool) → Manager → Manager
unfolding connect_obs_by_id
load_all_connections [] m = m
load_all_connections ((c, is_primary) ∷ configs) m =
    load_all_connections configs (connect_obs_by_id c is_primary m)
