-- ===== src/Obs/Manager/Pending/Sequences.antt =====
-- Any sequence of calls, answers of OBS, closed sockets and timers.
use live_ops_backend.Prelude.{
  ℕ, ◌^◌, zero, suc, ◌≤◌, String, ◌≡◌, Bool, true, false, List, [], ◌∷◌, Option, none, some, map,
  arith,
}
use live_ops_backend.Prelude.Map.{get}
use live_ops_backend.Obs.Manager.{Call, Timer, Manager, connect_obs_by_id, back_off, Instance, over}
use live_ops_backend.Obs.Manager.Calls.{
  connected, refused, bootstrapped, connection_closed, heartbeat_failed, reconnect, disconnect_obs,
  on_module_destroy, manual_reconnect, connect_obs, load_all_connections,
}
use live_ops_backend.Obs.Manager.Pending.{Inv}
use live_ops_backend.Obs.Manager.Pending.Changes.{connect_obs_by_id-Inv}
use live_ops_backend.Obs.Manager.Pending.Answers.{
  connected-Inv, refused-Inv, bootstrapped-Inv, connection_closed-Inv, heartbeat_failed-Inv,
  reconnect-Inv, teardown_ids-Inv, disconnect_obs-Inv, manual_reconnect-Inv,
  load_all_connections-Inv,
}

pub data Step : Type 0 where
  connect : Call → Bool → Step
  obs_connected obs_refused obs_closed heartbeat_lost timer_fired : ℕ → Step
  obs_bootstrapped : Option String → ℕ → Step
  disconnect : String → Step
  reconnect_now : String → String → Step
  connect_primary : Option String → String → String → Option String → Step
  load : List (Call × Bool) → Step
  destroy : Step

abbrev pub after : Step → Manager → Manager
after (connect c is_primary) m = connect_obs_by_id c is_primary m
after (obs_connected r) m = connected r m
after (obs_refused r) m = refused r m
after (obs_closed r) m = connection_closed r m
after (heartbeat_lost r) m = heartbeat_failed r m
after (timer_fired h) m = reconnect h m
after (obs_bootstrapped state r) m = bootstrapped state r m
after (disconnect p) m = disconnect_obs p m
after (reconnect_now id p) m = manual_reconnect id p m
after (connect_primary primary p url password) m = connect_obs primary p url password m
after (load configs) m = load_all_connections configs m
after destroy m = on_module_destroy m

abbrev pub after_all : List Step → Manager → Manager
after_all [] m = m
after_all (s ∷ steps) m = after_all steps (after s m)

after-Inv : (s : Step) (m : Manager) → Inv m → Inv (after s m)
unfolding on_module_destroy connect_obs
after-Inv (connect c is_primary) m inv = connect_obs_by_id-Inv c is_primary m inv
after-Inv (obs_connected r) m inv = connected-Inv r m inv
after-Inv (obs_refused r) m inv = refused-Inv r m inv
after-Inv (obs_closed r) m inv = connection_closed-Inv r m inv
after-Inv (heartbeat_lost r) m inv = heartbeat_failed-Inv r m inv
after-Inv (timer_fired h) m inv = reconnect-Inv h m inv
after-Inv (obs_bootstrapped state r) m inv = bootstrapped-Inv state r m inv
after-Inv (disconnect p) m inv = disconnect_obs-Inv p m inv
after-Inv (reconnect_now id p) m inv = manual_reconnect-Inv id p m inv
after-Inv (connect_primary primary p url password) m inv = connect_obs_by_id-Inv _ true m inv
after-Inv (load configs) m inv = load_all_connections-Inv configs m inv
after-Inv destroy m inv = teardown_ids-Inv (map (λ e. e.0) m.store.connections) m inv

-- Any sequence of calls, answers of OBS, closed sockets and timers keeps every pending timer expected:
-- it is the one that the present instance of its connection waits for.
pub after_all-Inv : (steps : List Step) (m : Manager) → Inv m → Inv (after_all steps m)
after_all-Inv [] m inv = inv
after_all-Inv (s ∷ steps) m inv = after_all-Inv steps (after s m) (after-Inv s m inv)

-- the manager before onModuleInit
abbrev pub initial : (ℕ → Instance) → Manager
initial heap = record {
  store = record { connections = []; production_map = []; primary_map = [] };
  heap = heap;
  calls = λ r. none;
  phase = λ r. over;
  listening = λ r. false;
  next_instance = 0;
  timers = λ h. none;
  next_timer = 0;
  events = [];
}

initial-Inv : (heap : ℕ → Instance) → Inv (initial heap)
unfolding get
initial-Inv heap = record {
  expected = λ h t pending. cc pending;
  numbered = λ h t pending. cc pending;
  made = λ id r found. cc found;
}

two_pow_positive : (n : ℕ) → 1 ≤ 2 ^ n
two_pow_positive zero = omega arith
two_pow_positive (suc n) = omega (arith, two_pow_positive n)

back_off_bounds : (n : ℕ) → 1 ≤ n → (2000 ≤ back_off n) × (back_off n ≤ 30000)
back_off_bounds zero h = absurd (omega arith)
back_off_bounds (suc n) h = ground (arith, two_pow_positive n)

-- From the start, after any sequence of steps: a connection has at most one pending timer, and every
-- pending timer waits for at least two seconds and at most thirty.
pub one_reconnect :
    (heap : ℕ → Instance) (steps : List Step) (h k : ℕ) (t u : Timer)
    → (after_all steps (initial heap)).timers h ≡ some t
    → (after_all steps (initial heap)).timers k ≡ some u
    → t.call.connection_id ≡ u.call.connection_id
    → (h ≡ k) × (2000 ≤ t.delay) × (t.delay ≤ 30000)
one_reconnect heap steps h k t u pending other same =
    let inv = after_all-Inv steps (initial heap) (initial-Inv heap) in
    let e = inv.expected h t pending in
    let f = inv.expected k u other in
    let (low, high) = back_off_bounds _ e.attempted in
    let here_too : t.instance_ ≡ u.instance_ = cc (same, e.held, f.held) in
    (cc (here_too, e.awaited, f.awaited), rw e.waits low, rw e.waits high)
