-- ===== src/Vmix/Poll.antt =====
-- What a poll of src/vmix/vmix-connection.manager.ts does when it is answered or fails. The clock is
-- read once for a failure. `now` is a time in milliseconds.
use live_ops_backend.Prelude.{
  ℕ, suc, ◌-◌, Bool, true, false, not, ◌&&◌, ◌||◌, Option, none, some, if◌then◌else◌, eqb, leb,
  length,
}
use live_ops_backend.Vmix.{
  Status, VmixInstance, Event, connection_state, input_changed, health_stats, Vmix, emit, change,
  begin_poll,
}

abbrev pub disconnect_after_failures : ℕ
disconnect_after_failures = 3

abbrev pub disconnect_after_ms : ℕ
disconnect_after_ms = 5000

-- `===` of a number with one that may be undefined
abbrev pub same_number : Option ℕ → ℕ → Bool
same_number none b = false
same_number (some a) b = eqb a b

abbrev pub same_bool : Bool → Bool → Bool
same_bool true b = b
same_bool false b = not b

-- the value, or `now` for undefined and 0: `if (!firstFailureAt) firstFailureAt = now`
abbrev pub since : Option ℕ → ℕ → ℕ
since none now = now
since (some t) now = if eqb t 0 then now else t

module _ {Input Audio : Type 0} where
  unfoldable pub has_changed : VmixInstance Input Audio → Status Input Audio → Bool
  has_changed i s =
      not (same_number i.active_input s.active)
      || (not (same_number i.preview_input s.preview)
          || (not (same_bool i.is_streaming s.streaming)
              || (not (same_bool i.is_recording s.recording)
                  || not (eqb (length i.inputs) (length s.inputs)))))

  -- what an answer writes, the guard of the next poll included
  abbrev pub answered :
      Status Input Audio → ℕ → ℕ → VmixInstance Input Audio → VmixInstance Input Audio
  answered s now latency i = record i {
    active_input = some s.active;
    preview_input = some s.preview;
    is_streaming = s.streaming;
    is_recording = s.recording;
    is_external = s.external;
    is_multi_corder = s.multi_corder;
    inputs = s.inputs;
    audio = some s.audio;
    last_heartbeat = some now;
    last_latency = some latency;
    is_connected = true;
    polling_failure_count = 0;
    first_failure_at = none;
    poll_in_flight = false;
  }

  -- the events of an answer
  abbrev pub when : Bool → Event Input Audio → Vmix Input Audio → Vmix Input Audio
  when true e m = emit e m
  when false e m = m

  unfoldable pub poll_succeeded :
      ℕ → Status Input Audio → ℕ → ℕ → Vmix Input Audio → Vmix Input Audio
  unfolding has_changed
  poll_succeeded r s now latency m =
      let i = m.heap r in
      let p = m.production_of r in
      if i.poll_in_flight
      then emit (health_stats p s) (
          when (not i.is_connected) (connection_state p true) (
            when (has_changed i s) (input_changed p s i.url) (change r (answered s now latency) m)))
      else m

  -- the count and the time of the first failure, up to the test for a lost connection
  abbrev pub counted : ℕ → VmixInstance Input Audio → VmixInstance Input Audio
  counted now i = record i {
    polling_failure_count = suc i.polling_failure_count;
    first_failure_at = some (since i.first_failure_at now);
  }

  -- whether a failure that was counted loses the connection
  abbrev pub is_lost : ℕ → VmixInstance Input Audio → Bool
  is_lost now i =
      i.is_connected
      && (leb disconnect_after_failures i.polling_failure_count
          && leb disconnect_after_ms (now - since i.first_failure_at now))

  abbrev pub failed : ℕ → VmixInstance Input Audio → VmixInstance Input Audio
  failed now i =
      let j = counted now i in
      record j {
        is_connected = if is_lost now j then false else j.is_connected;
        poll_in_flight = false;
      }

  unfoldable pub poll_failed : ℕ → ℕ → Vmix Input Audio → Vmix Input Audio
  poll_failed r now m =
      let i = m.heap r in
      if i.poll_in_flight
      then when (is_lost now (counted now i)) (connection_state (m.production_of r) false)
          (change r (failed now) m)
      else m

  -- the interval
  unfoldable pub tick : ℕ → Vmix Input Audio → Vmix Input Audio
  tick r m = if m.ticking r then change r begin_poll m else m
