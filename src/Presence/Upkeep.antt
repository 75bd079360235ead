-- ===== src/Presence/Upkeep.antt =====
-- Connecting keeps the invariant, and so does any sequence of requests.
use live_ops_backend.Prelude.{
  ℕ, String, ◌≡◌, true, false, List, [], ◌∷◌, Option, none, some, arith, eq_iff, Option-cases, inl,
  inr, Bool-cases,
}
use live_ops_backend.Prelude.Map.{get, get-set, get-empty, has, has-add, add}
use live_ops_backend.Presence.{
  Presence, UserPresence, truthy, sockets_in, empty, store, track_user, cancel_grace,
  upsert_presence, remove_presence, expire, update_status, heartbeat, broadcast_to_production,
  associate_with_production, set_server, join,
}
use live_ops_backend.Presence.Invariant.{Inv, Owned-cleared, Below-cleared}
use live_ops_backend.Presence.Removal.{
  broadcast-Inv, heartbeat-Inv, update_status-Inv, remove_presence-Inv, expire-Inv,
}

store_track_indexed :
    (s : Presence) (client : String) (d : UserPresence) (now : ℕ) (c : String) (e : UserPresence)
    → (get s.active_sockets c ≡ some e
        → truthy e.user_id ≡ true
        → has (sockets_in s.user_to_sockets e.user_id) c ≡ true)
    → truthy d.user_id ≡ true
    → get (store client (record d { last_seen = now }) s).active_sockets c ≡ some e
    → truthy e.user_id ≡ true
    → has (sockets_in (track_user client d.user_id s).user_to_sockets e.user_id) c ≡ true
store_track_indexed s client d now c e h t g u = ground (
  arith,
  get-set s.active_sockets client (record d { last_seen = now }) c,
  eq_iff client c,
  eq_iff d.user_id e.user_id,
  get-set s.user_to_sockets d.user_id (add (sockets_in s.user_to_sockets d.user_id) client)
      e.user_id,
  has-add (sockets_in s.user_to_sockets d.user_id) client c,
)

store_untracked_indexed :
    (s : Presence) (client : String) (d : UserPresence) (now : ℕ) (c : String) (e : UserPresence)
    → (get s.active_sockets c ≡ some e
        → truthy e.user_id ≡ true
        → has (sockets_in s.user_to_sockets e.user_id) c ≡ true)
    → truthy d.user_id ≡ false
    → get (store client (record d { last_seen = now }) s).active_sockets c ≡ some e
    → truthy e.user_id ≡ true
    → has (sockets_in s.user_to_sockets e.user_id) c ≡ true
store_untracked_indexed s client d now c e h t g u =
    ground
      (arith, get-set s.active_sockets client (record d { last_seen = now }) c, eq_iff client c)

cancel_grace-Inv :
    (s : Presence) (u : String) → Inv s → Inv (cancel_grace (get s.reconnecting u) u s)
cancel_grace-Inv s u h = elim (Option-cases (get s.reconnecting u)) [
  | inl e ↦ rw e h
  | inr (p, e) ↦ rw e (record {
    indexed = h.indexed;
    owned = Owned-cleared s.reconnecting u p.timer s.timers h.owned (rw e (ground arith));
    fresh = Below-cleared s.next_timer p.timer s.timers h.fresh;
  })
]

join-Inv : (s : Presence) (client : String) (pid : Option String) → Inv s → Inv (join client pid s)
unfolding associate_with_production
join-Inv s client none h = h
join-Inv s client (some pid) h = elim (Bool-cases (truthy pid)) [
  | inl e ↦ rw e (record { indexed = h.indexed; owned = h.owned; fresh = h.fresh })
  | inr e ↦ rw e h
]

pub upsert_presence-Inv :
    (now : ℕ) (client : String) (d : UserPresence) (pid : Option String) (s : Presence)
    → Inv s
    → Inv (upsert_presence now client d pid s)
unfolding upsert_presence
upsert_presence-Inv now client d pid s h = elim (Bool-cases (truthy d.user_id)) [
  | inl e ↦ rw e (
      let s₁ = cancel_grace (get s.reconnecting d.user_id) d.user_id s in
      let h₁ = cancel_grace-Inv s d.user_id h in
      join-Inv _ client pid (record {
        indexed = λ c x g t. store_track_indexed s₁ client d now c x (h₁.indexed c x) e g t;
        owned = h₁.owned;
        fresh = h₁.fresh;
      }))
  | inr e ↦ rw e (
      join-Inv _ client pid (record {
        indexed = λ c x g t. store_untracked_indexed s client d now c x (h.indexed c x) e g t;
        owned = h.owned;
        fresh = h.fresh;
      }))
]

-- A request to the service, or a timer that fires.
pub data Op : Type 0 where
  upsert : ℕ → String → UserPresence → Option String → Op
  associate : String → String → Op
  remove : String → Op
  fire : ℕ → Op
  status : ℕ → String → String → Op
  beat : ℕ → String → Op
  broadcast : String → Op
  serve : Op

abbrev pub run : Op → Presence → Presence
run (upsert now client d pid) s = upsert_presence now client d pid s
run (associate client pid) s = associate_with_production client pid s
run (remove client) s = remove_presence client s
run (fire n) s = expire n s
run (status now client st) s = update_status now client st s
run (beat now client) s = heartbeat now client s
run (broadcast pid) s = broadcast_to_production pid s
run serve s = set_server s

abbrev pub run_all : List Op → Presence → Presence
run_all [] s = s
run_all (op ∷ ops) s = run_all ops (run op s)

run-Inv : (op : Op) (s : Presence) → Inv s → Inv (run op s)
unfolding associate_with_production set_server
run-Inv (upsert now client d pid) s h = upsert_presence-Inv now client d pid s h
run-Inv (associate client pid) s h = record {
  indexed = h.indexed;
  owned = h.owned;
  fresh = h.fresh;
}
run-Inv (remove client) s h = remove_presence-Inv client s h
run-Inv (fire n) s h = expire-Inv n s h
run-Inv (status now client st) s h = update_status-Inv now client st s h
run-Inv (beat now client) s h = heartbeat-Inv now client s h
run-Inv (broadcast pid) s h = broadcast-Inv pid s h
run-Inv serve s h = record { indexed = h.indexed; owned = h.owned; fresh = h.fresh }

empty-Inv : Inv empty
empty-Inv = record { indexed = λ c d g t. absurd (nothing c d g); owned = tt; fresh = tt }
  where
    nothing : (c : String) (d : UserPresence) → get empty.active_sockets c ≡ some d → ⊥
    nothing c d g = cc (get-empty {V = UserPresence} c)

run_all-Inv_from : (ops : List Op) (s : Presence) → Inv s → Inv (run_all ops s)
run_all-Inv_from [] s h = h
run_all-Inv_from (op ∷ ops) s h = run_all-Inv_from ops (run op s) (run-Inv op s h)

-- From an empty service, any sequence of connects, disconnects, status changes, heartbeats,
-- broadcasts and timer expiries keeps the socket index complete and every live grace timer tied to
-- its user's pending entry.
pub run_all-Inv : (ops : List Op) → Inv (run_all ops empty)
run_all-Inv ops = run_all-Inv_from ops empty empty-Inv
