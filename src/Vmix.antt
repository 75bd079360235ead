-- ===== src/Vmix.antt =====
-- The vMix connections: src/vmix/vmix-connection.manager.ts. Instances are objects that the map of
-- connections and the polls in flight share, so a heap holds them by reference. A poll is two steps,
-- its start and its answer; what XML and HTTP make of an answer is a parameter of the step.
pub mod Poll
pub mod Sustained
pub mod Stale
pub mod ApiUrl
mod Tests
use live_ops_backend.Prelude.{
  ℕ, zero, suc, String, ◌==◌, Bool, true, false, ◌&&◌, ◌||◌, List, [], ◌∷◌, ◌++◌, Option, none,
  some, if◌then◌else◌, eqb, leb, is_some,
}
use live_ops_backend.Prelude.Map.{Map, get, set, delete}

pub data EngineType : Type 0 where
  obs vmix : EngineType

-- what an answer of the API says: the numbers of the inputs, and the flags
pub record Status (Input Audio : Type 0) : Type 0 where
  pub active : ℕ
  pub preview : ℕ
  pub streaming : Bool
  pub recording : Bool
  pub external : Bool
  pub multi_corder : Bool
  pub inputs : List Input
  pub audio : Audio

pub record VmixInstance (Input Audio : Type 0) : Type 0 where
  pub url : String
  -- the period of the interval, once it is set
  pub poll_interval : Option ℕ
  pub poll_in_flight : Bool
  pub active_input : Option ℕ
  pub preview_input : Option ℕ
  pub is_streaming : Bool
  pub is_recording : Bool
  pub is_external : Bool
  pub is_multi_corder : Bool
  pub inputs : List Input
  pub audio : Option Audio
  pub polling_failure_count : ℕ
  pub first_failure_at : Option ℕ
  pub is_connected : Bool
  pub last_heartbeat : Option ℕ
  pub last_latency : Option ℕ

pub data Event (Input Audio : Type 0) : Type 0 where
  connection_state : String → Bool → Event Input Audio
  input_changed : String → Status Input Audio → String → Event Input Audio
  health_stats : String → Status Input Audio → Event Input Audio

pub record Vmix (Input Audio : Type 0) : Type 0 where
  pub connections : Map ℕ
  pub heap : ℕ → VmixInstance Input Audio
  -- the production of an instance, which its polls are called with
  pub production_of : ℕ → String
  -- whether the interval of an instance runs
  pub ticking : ℕ → Bool
  pub next : ℕ
  pub events : List (Event Input Audio)

-- `f[k] = a`
abbrev pub put : {A : Type 0} → ℕ → A → (ℕ → A) → ℕ → A
put k a f j = if eqb j k then a else f j

abbrev pub polling_rate_ms : ℕ
polling_rate_ms = 1500

abbrev pub min_polling_rate_ms : ℕ
min_polling_rate_ms = 1000

-- `pollingInterval || POLLING_RATE_MS`
abbrev pub requested : Option ℕ → ℕ
requested none = polling_rate_ms
requested (some n) = if eqb n 0 then polling_rate_ms else n

-- `Math.max(MIN_POLLING_RATE_MS, requestedInterval)`
unfoldable pub interval_of : Option ℕ → ℕ
interval_of n = if leb min_polling_rate_ms (requested n) then requested n else min_polling_rate_ms

module _ {Input Audio : Type 0} where
  abbrev pub emit : Event Input Audio → Vmix Input Audio → Vmix Input Audio
  emit e m = record m { events = m.events ++ e ∷ [] }

  abbrev pub change :
      ℕ
      → (VmixInstance Input Audio → VmixInstance Input Audio)
      → Vmix Input Audio
      → Vmix Input Audio
  change r f m = record m { heap = put r (f (m.heap r)) m.heap }

  unfoldable pub disconnect_vmix : String → ℕ → Vmix Input Audio → Vmix Input Audio
  disconnect_vmix p r m = emit (connection_state p false) (record m {
    ticking = if is_some (m.heap r).poll_interval then put r false m.ticking else m.ticking;
    connections = delete m.connections p;
  })

  unfoldable pub stop_polling : String → Vmix Input Audio → Vmix Input Audio
  unfolding disconnect_vmix
  stop_polling p m = elim (get m.connections p) [ none ↦ m | some r ↦ disconnect_vmix p r m ]

  abbrev pub new_instance : String → VmixInstance Input Audio
  new_instance url = record {
    url = url;
    poll_interval = none;
    poll_in_flight = false;
    active_input = none;
    preview_input = none;
    is_streaming = false;
    is_recording = false;
    is_external = false;
    is_multi_corder = false;
    inputs = [];
    audio = none;
    polling_failure_count = 0;
    first_failure_at = none;
    is_connected = false;
    last_heartbeat = none;
    last_latency = none;
  }

  -- the start of a poll: pollApi up to its first await
  abbrev pub begin_poll : VmixInstance Input Audio → VmixInstance Input Audio
  begin_poll i = if i.poll_in_flight then i else record i { poll_in_flight = true }

  -- the new instance, its first poll, and its interval
  unfoldable pub open_instance : String → String → Option ℕ → Vmix Input Audio → Vmix Input Audio
  open_instance p url interval m = record m {
    connections = set m.connections p m.next;
    heap =
        put m.next
          (record (begin_poll (new_instance url)) { poll_interval = some (interval_of interval) })
          m.heap;
    production_of = put m.next p m.production_of;
    ticking = put m.next true m.ticking;
    next = suc m.next;
  }

  -- the connection is there, with the same address
  abbrev pub is_served : String → VmixInstance Input Audio → Bool
  is_served url i = i.url == url && (i.is_connected || is_some i.poll_interval)

  unfoldable pub connect_vmix : String → String → Option ℕ → Vmix Input Audio → Vmix Input Audio
  unfolding open_instance disconnect_vmix
  connect_vmix p url interval m = elim (get m.connections p) [
    | none ↦ open_instance p url interval m
    | some r ↦
        if is_served url (m.heap r) then m else open_instance p url interval (disconnect_vmix p r m)
  ]

  -- loadAllConnections: the rows of the enabled connections
  unfoldable pub load_all_connections :
      List (String × String × Option ℕ) → Vmix Input Audio → Vmix Input Audio
  unfolding connect_vmix
  load_all_connections [] m = m
  load_all_connections ((p, url, interval) ∷ configs) m =
      load_all_connections configs (connect_vmix p url interval m)

  unfoldable pub handle_connection_update :
      EngineType → String → String → Option ℕ → Vmix Input Audio → Vmix Input Audio
  unfolding connect_vmix
  handle_connection_update vmix p url interval m = connect_vmix p url interval m
  handle_connection_update obs p url interval m = m

  -- `connections.get(productionId)?.isConnected ?? false`
  abbrev pub is_connected : String → Vmix Input Audio → Bool
  is_connected p m = elim (get m.connections p) [ none ↦ false | some r ↦ (m.heap r).is_connected ]
