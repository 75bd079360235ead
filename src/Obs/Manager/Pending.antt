-- ===== src/Obs/Manager/Pending.antt =====
-- Which timers are pending.
pub mod Changes
mod Answers
pub mod Sequences
use live_ops_backend.Prelude.{
  ℕ, zero, suc, ◌+◌, ◌*◌, ◌^◌, ◌≤◌, ◌<◌, String, ◌==◌, ◌≡◌, refl, Bool, true, false, List, [], ◌∷◌,
  Option, none, some, if◌then◌else◌, eqb, leb, is_some, arith, Option-cases, Bool-cases, inl, inr,
  eq_iff,
}
use live_ops_backend.Prelude.Map.{get, get-set, get-delete}
use live_ops_backend.Obs.{ObsStateStore, add_to_production, set_primary}
use live_ops_backend.Obs.Manager.{
  Call, Timer, Instance, Manager, put, emit, clear_timeout, change, teardown_instance, back_off,
  schedule_for, schedule_reconnect, open_instance, is_served, connect_obs_by_id,
}

-- A pending timer: it is the one of the instance that its connection has, after at least one attempt,
-- and waits for as long as the attempts ask.
pub record Expected (m : Manager) (h : ℕ) (t : Timer) : Type 0 where
  pub held : get m.store.connections t.call.connection_id ≡ some t.instance_
  pub awaited : (m.heap t.instance_).reconnect_timeout ≡ some h
  pub attempted : 1 ≤ (m.heap t.instance_).reconnect_attempts
  pub waits : t.delay ≡ back_off (m.heap t.instance_).reconnect_attempts

pub record Inv (m : Manager) : Type 0 where
  pub expected : (h : ℕ) (t : Timer) → m.timers h ≡ some t → Expected m h t
  pub numbered : (h : ℕ) (t : Timer) → m.timers h ≡ some t → h < m.next_timer
  pub made : (id : String) (r : ℕ) → get m.store.connections id ≡ some r → r < m.next_instance
