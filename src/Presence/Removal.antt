-- ===== src/Presence/Removal.antt =====
-- Disconnecting, expiring, status changes and broadcasts keep the invariant.
use live_ops_backend.Prelude.{
  ℕ, String, ◌≡◌, refl, true, List, Option, none, some, arith, eq_iff, Option-cases, inl, inr,
  Bool-cases, find, find-satisfies, eq_refl,
}
use live_ops_backend.Prelude.Map.{
  get, get-set, get-delete, has, has-remove, remove as set_remove, delete,
}
use live_ops_backend.Presence.{
  Presence, UserPresence, Timer, truthy, sockets_in, clear_timeout, has_timer, remove_presence,
  expire, update_status, heartbeat, start_reconnect_grace, broadcast_to_production, is_empty,
  drop_socket, forget, on_expiry, is_truthy, put_back, production_for_socket,
}
use live_ops_backend.Presence.Invariant.{
  Inv, Owned, Below, Owned-cleared, Owned-replaced, Owned-append, Owned-In, Below-cleared,
  Below-pending, Below-append, has-is_empty,
}

start_grace-Owned :
    (s : Presence) (u : String) (d : UserPresence) (pid : Option String)
    → Owned s.reconnecting s.timers
    → Owned (start_reconnect_grace u d pid s).reconnecting (start_reconnect_grace u d pid s).timers
unfolding start_reconnect_grace
start_grace-Owned s u d pid h = Owned-append _ _ _ (Owned-replaced s.reconnecting u _ s.timers h) (
    ground (
      arith,
      get-set s.reconnecting u
          (record { timer = s.next_timer; last_presence = d; production_id = pid }) u,
      eq_refl u,
    ))

start_grace-fresh :
    (s : Presence) (u : String) (d : UserPresence) (pid : Option String)
    → Below s.next_timer s.timers
    → Below (start_reconnect_grace u d pid s).next_timer (start_reconnect_grace u d pid s).timers
unfolding start_reconnect_grace
start_grace-fresh s u d pid h =
    Below-append _ _ _ (Below-pending s.next_timer (get s.reconnecting u) s.timers h) refl

-- The sets of the users once `client`, a socket of `d`, is taken out.
drop-indexed :
    (s : Presence) (client : String) (d : UserPresence) (c : String) (e : UserPresence)
    → (get s.active_sockets c ≡ some e
        → truthy e.user_id ≡ true
        → has (sockets_in s.user_to_sockets e.user_id) c ≡ true)
    → get (delete s.active_sockets client) c ≡ some e
    → truthy e.user_id ≡ true
    → has
        (sockets_in
          (drop_socket client d (get s.user_to_sockets d.user_id) s).user_to_sockets
          e.user_id)
        c
      ≡ true
unfolding start_reconnect_grace
drop-indexed s client d c e h g t = elim (Option-cases (get s.user_to_sockets d.user_id)) [
  | inl n ↦ rw n (ground (arith, get-delete s.active_sockets client c))
  | inr (socks, n) ↦ rw n (
      ground (
        arith,
        get-delete s.active_sockets client c,
        eq_iff client c,
        eq_iff d.user_id e.user_id,
        get-set s.user_to_sockets d.user_id (set_remove socks client) e.user_id,
        get-delete s.user_to_sockets d.user_id e.user_id,
        has-remove socks client c,
        has-is_empty (set_remove socks client) c,
      ))
]

drop_socket-Owned :
    (s : Presence) (client : String) (d : UserPresence) (o : Option (List String))
    → Owned s.reconnecting s.timers
    → Below s.next_timer s.timers
    → let s' = drop_socket client d o s in
      Owned s'.reconnecting s'.timers × Below s'.next_timer s'.timers
drop_socket-Owned s client d none h k = (h, k)
drop_socket-Owned s client d (some socks) h k =
    elim (Bool-cases (is_empty (set_remove socks client))) [
      | inl e ↦ rw e (
          let s₁ = record s { user_to_sockets = delete s.user_to_sockets d.user_id } in
          let pid = production_for_socket client s.production_to_sockets in
          (start_grace-Owned s₁ d.user_id d pid h, start_grace-fresh s₁ d.user_id d pid k))
      | inr e ↦ rw e (h, k)
    ]

drop_socket-active :
    (s : Presence) (client : String) (d : UserPresence) (o : Option (List String))
    → (drop_socket client d o s).active_sockets ≡ s.active_sockets
unfolding start_reconnect_grace
drop_socket-active s client d none = refl
drop_socket-active s client d (some socks) = ground arith

pub broadcast-Inv : (pid : String) (s : Presence) → Inv s → Inv (broadcast_to_production pid s)
unfolding broadcast_to_production
broadcast-Inv pid s h = elim (Bool-cases s.has_server) [
  | inl e ↦ rw e (record { indexed = h.indexed; owned = h.owned; fresh = h.fresh })
  | inr e ↦ rw e (record { indexed = h.indexed; owned = h.owned; fresh = h.fresh })
]

expired-Inv :
    (s : Presence) (t : Timer)
    → Inv (record s {
      timers = clear_timeout t.tid s.timers;
      reconnecting = delete s.reconnecting t.user;
    })
    → Inv (on_expiry (some t) s)
expired-Inv s t h = elim (Bool-cases (is_truthy t.production)) [
  | inl e ↦ rw e (broadcast-Inv _ _ h)
  | inr e ↦ rw e h
]

put_back-Inv :
    (client : String) (s : Presence) (f : UserPresence → UserPresence)
    → ((d : UserPresence) → (f d).user_id ≡ d.user_id)
    → Inv s
    → Inv (put_back client (get s.active_sockets client) f s)
put_back-Inv client s f same h = elim (Option-cases (get s.active_sockets client)) [
  | inl e ↦ rw e h
  | inr (d, e) ↦ rw e (record {
    indexed = λ c x g u. ground (
      arith,
      get-set s.active_sockets client (f d) c,
      eq_iff client c,
      same d,
      h.indexed c x,
      h.indexed c d,
    );
    owned = h.owned;
    fresh = h.fresh;
  })
]

pub heartbeat-Inv :
    (now : ℕ) (client : String) (s : Presence) → Inv s → Inv (heartbeat now client s)
unfolding heartbeat
heartbeat-Inv now client s h = put_back-Inv client s _ (λ d. refl) h

pub update_status-Inv :
    (now : ℕ) (client status : String) (s : Presence)
    → Inv s
    → Inv (update_status now client status s)
unfolding update_status
update_status-Inv now client status s h = put_back-Inv client s _ (λ d. refl) h

forget-Inv :
    (s : Presence) (client : String) → Inv s → Inv (forget client (get s.active_sockets client) s)
forget-Inv s client h = elim (Option-cases (get s.active_sockets client)) [
  | inl e ↦ rw e h
  | inr (d, e) ↦ rw e (elim (Bool-cases (truthy d.user_id)) [
    | inl t ↦ rw t (
        let (kept, below) =
          drop_socket-Owned s client d (get s.user_to_sockets d.user_id) h.owned h.fresh in
        record {
          indexed = λ c x g u.
              drop-indexed s client d c x (h.indexed c x)
                (rw (drop_socket-active s client d (get s.user_to_sockets d.user_id)) at g) u;
          owned = kept;
          fresh = below;
        })
    | inr t ↦ rw t (record {
      indexed = λ c x g u. h.indexed c x (ground (arith, get-delete s.active_sockets client c)) u;
      owned = h.owned;
      fresh = h.fresh;
    })
  ])
]

pub remove_presence-Inv : (client : String) (s : Presence) → Inv s → Inv (remove_presence client s)
unfolding remove_presence
remove_presence-Inv client s h =
    let k = forget-Inv s client h in
    record { indexed = k.indexed; owned = k.owned; fresh = k.fresh }

pub expire-Inv : (n : ℕ) (s : Presence) → Inv s → Inv (expire n s)
unfolding expire
expire-Inv n s h = elim (Option-cases (find (has_timer n) s.timers)) [
  | inl e ↦ rw e h
  | inr (t, e) ↦ rw e (
      let (m, same) = find-satisfies (has_timer n) s.timers e in
      expired-Inv s t (record {
        indexed = h.indexed;
        owned =
            Owned-cleared s.reconnecting t.user t.tid s.timers h.owned
              (Owned-In s.reconnecting s.timers t h.owned m);
        fresh = Below-cleared s.next_timer t.tid s.timers h.fresh;
      }))
]
