-- ===== src/Obs/Manager/Pending/Answers.antt =====
-- Each call, and each answer of OBS, closed socket and timer, keeps every pending timer expected.
use live_ops_backend.Prelude.{
  ℕ, String, refl, Bool, true, false, ◌&&◌, List, [], ◌∷◌, Option, none, leb, Option-cases,
  Bool-cases, inl, inr, subst, ◌++◌,
}
use live_ops_backend.Prelude.Map.{Map, get}
use live_ops_backend.Obs.{get_production_connection_ids}
use live_ops_backend.Obs.Manager.{
  Call, Manager, change, Instance, Phase, Event, bootstrapping, over, connection_state, put,
  clear_timeout,
}
use live_ops_backend.Obs.Manager.Calls.{
  is_connecting, is_bootstrapping, connected, refused, with_intervals, bootstrapped, alert,
  mark_closed, connection_closed, heartbeat_failed, without_timeout, reconnect, teardown_ids,
  disconnect_obs, restarted, manual_reconnect, load_all_connections,
}
use live_ops_backend.Obs.Manager.Pending.{Inv}
use live_ops_backend.Obs.Manager.Pending.Changes.{
  change-Inv, clear-Inv, teardown_instance-Inv, schedule_reconnect-Inv, connect_obs_by_id-Inv,
}

-- The rest of the state does not matter.
module _ (m : Manager) (inv : Inv m) where
  beside :
      (phase : ℕ → Phase) (events : List Event) (production_map : Map (List String))
      (primary_map : Map String)
      → Inv (record m {
        phase = phase;
        events = events;
        store = record m.store { production_map = production_map; primary_map = primary_map };
      })
  beside phase events production_map primary_map = record {
    expected = λ h t pending.
        let e = inv.expected h t pending in
        record { held = e.held; awaited = e.awaited; attempted = e.attempted; waits = e.waits };
    numbered = inv.numbered;
    made = inv.made;
  }

  in_phase : (phase : ℕ → Phase) → Inv (record m { phase = phase })
  in_phase phase = beside phase m.events m.store.production_map m.store.primary_map

  with_events : (events : List Event) → Inv (record m { events = events })
  with_events events = beside m.phase events m.store.production_map m.store.primary_map

pub connected-Inv : (r : ℕ) (m : Manager) → Inv m → Inv (connected r m)
unfolding connected
connected-Inv r m inv = elim (Option-cases (m.calls r)) [
  | inl missed ↦ rw (connected, missed) inv
  | inr (c, found) ↦ elim (Bool-cases (is_connecting (m.phase r))) [
    | inr late ↦ rw (connected, found, late) inv
    | inl waiting ↦
        rw (connected, found, waiting)
          (beside _ (clear-Inv r marked m (λ i. refl) inv) (put r bootstrapping m.phase)
            (m.events ++ connection_state c.production_id true ∷ []) m.store.production_map
            m.store.primary_map)
  ]
]
  where
    marked : Instance → Instance
    marked i = record i { is_connected = true; reconnect_attempts = 0; reconnect_timeout = none }

pub refused-Inv : (r : ℕ) (m : Manager) → Inv m → Inv (refused r m)
unfolding refused
refused-Inv r m inv = elim (Option-cases (m.calls r)) [
  | inl missed ↦ rw (refused, missed) inv
  | inr (c, found) ↦ elim (Bool-cases (is_connecting (m.phase r))) [
    | inr late ↦ rw (refused, found, late) inv
    | inl waiting ↦
        rw (refused, found, waiting)
          (schedule_reconnect-Inv c _ (in_phase m inv (put r over m.phase)))
  ]
]

pub bootstrapped-Inv :
    (state : Option String) (r : ℕ) (m : Manager) → Inv m → Inv (bootstrapped state r m)
unfolding bootstrapped
bootstrapped-Inv state r m inv = elim (Bool-cases (is_bootstrapping (m.phase r))) [
  | inr late ↦ rw (bootstrapped, late) inv
  | inl waiting ↦
      rw (bootstrapped, waiting)
        (change-Inv r (with_intervals state) _ (λ i. refl) (λ i. refl)
          (in_phase m inv (put r over m.phase)))
]

alert-Inv : (c : Call) (r : ℕ) (m : Manager) → Inv m → Inv (alert c r m)
alert-Inv c r m inv = elim (Bool-cases (leb 10 (m.heap r).reconnect_attempts)) [
  | inl many ↦ rw many (with_events m inv _)
  | inr few ↦ rw few inv
]

pub connection_closed-Inv : (r : ℕ) (m : Manager) → Inv m → Inv (connection_closed r m)
unfolding connection_closed
connection_closed-Inv r m inv = elim (Option-cases (m.calls r)) [
  | inl missed ↦ rw (connection_closed, missed) inv
  | inr (c, found) ↦ elim (Bool-cases (m.listening r)) [
    | inr off ↦ rw (connection_closed, found, off) inv
    | inl on ↦
        let closed = change-Inv r mark_closed m (λ i. refl) (λ i. refl) inv in
        rw (connection_closed, found, on)
          (alert-Inv c r _ (schedule_reconnect-Inv c _ (with_events _ closed _)))
  ]
]

pub heartbeat_failed-Inv : (r : ℕ) (m : Manager) → Inv m → Inv (heartbeat_failed r m)
unfolding heartbeat_failed
heartbeat_failed-Inv r m inv =
    elim (Bool-cases ((m.heap r).heartbeat_interval && (m.heap r).is_connected)) [
      | inl lost ↦
          rw (heartbeat_failed, lost) (change-Inv r mark_closed m (λ i. refl) (λ i. refl) inv)
      | inr fine ↦ rw (heartbeat_failed, fine) inv
    ]

-- The timer that fires is the one of its instance, so clearing it is what its callback does.
pub reconnect-Inv : (h : ℕ) (m : Manager) → Inv m → Inv (reconnect h m)
unfolding reconnect
reconnect-Inv h m inv = elim (Option-cases (m.timers h)) [
  | inl missed ↦ rw (reconnect, missed) inv
  | inr (t, pending) ↦
      let e = inv.expected h t pending in
      rw (reconnect, pending)
        (connect_obs_by_id-Inv t.call false _ (
          subst
            (λ o.
              Inv (
                change t.instance_ without_timeout
                  (record m { timers = clear_timeout o m.timers })))
            e.awaited (clear-Inv t.instance_ without_timeout m (λ i. refl) inv)))
]

pub teardown_ids-Inv : (ids : List String) (m : Manager) → Inv m → Inv (teardown_ids ids m)
unfolding teardown_ids
teardown_ids-Inv [] m inv = inv
teardown_ids-Inv (id ∷ ids) m inv = elim (Option-cases (get m.store.connections id)) [
  | inl missed ↦ rw (teardown_ids, missed) (teardown_ids-Inv ids m inv)
  | inr (r, present) ↦
      rw (teardown_ids, present) (teardown_ids-Inv ids _ (teardown_instance-Inv id r m present inv))
]

pub disconnect_obs-Inv : (p : String) (m : Manager) → Inv m → Inv (disconnect_obs p m)
unfolding disconnect_obs
disconnect_obs-Inv p m inv =
    let closed = teardown_ids-Inv (get_production_connection_ids p m.store) m inv in
    beside _ closed _ _ _ _

pub manual_reconnect-Inv : (id p : String) (m : Manager) → Inv m → Inv (manual_reconnect id p m)
unfolding manual_reconnect
manual_reconnect-Inv id p m inv = elim (Option-cases (get m.store.connections id)) [
  | inl missed ↦ rw (manual_reconnect, missed) inv
  | inr (r, present) ↦
      rw (manual_reconnect, present)
        (connect_obs_by_id-Inv _ true _ (clear-Inv r restarted m (λ i. refl) inv))
]

pub load_all_connections-Inv :
    (configs : List (Call × Bool)) (m : Manager) → Inv m → Inv (load_all_connections configs m)
unfolding load_all_connections
load_all_connections-Inv [] m inv = inv
load_all_connections-Inv ((c, is_primary) ∷ configs) m inv =
    load_all_connections-Inv configs _ (connect_obs_by_id-Inv c is_primary m inv)
