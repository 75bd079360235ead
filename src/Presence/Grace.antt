-- ===== src/Presence/Grace.antt =====
-- The grace period: a user who reconnects is not reported offline, and one who does not is listed as
-- RECONNECTING until the timer fires.
use live_ops_backend.Prelude.{
  ℕ, String, ◌==◌, ◌≡◌, refl, true, false, List, [], ◌∷◌, Option, none, some, arith, eq_iff,
  eq_refl, if◌then◌else◌, any, Option-cases, inl, inr, is_some, In→any, includes_iff,
}
use live_ops_backend.Prelude.Map.{
  Map, get, get-set, get-delete, has, has-add, set, remove, has-remove,
}
use live_ops_backend.Presence.{
  Presence, UserPresence, Timer, Pending, same_production, production_for_socket, forget,
  drop_socket, start_reconnect_grace, truthy, sockets_in, upsert_presence, remove_presence,
  associate_with_production, unique_members, leave_all, join, cancel_grace,
}
use live_ops_backend.Presence.Invariant.{Inv, Owned-none}
use live_ops_backend.Presence.Upkeep.{upsert_presence-Inv}
use live_ops_backend.Presence.Members.{is_user, has_socket, is_waiting, unique_members_lem}

join-reconnecting :
    (client : String) (pid : Option String) (s : Presence)
    → (join client pid s).reconnecting ≡ s.reconnecting
unfolding associate_with_production
join-reconnecting client none s = refl
join-reconnecting client (some pid) s = ground arith

cancelled :
    (s : Presence) (u : String)
    → get (cancel_grace (get s.reconnecting u) u s).reconnecting u ≡ none
cancelled s u = elim (Option-cases (get s.reconnecting u)) [
  | inl e ↦ rw e e
  | inr (p, e) ↦ rw e (ground (arith, get-delete s.reconnecting u u, eq_refl u))
]

upsert-none :
    (now : ℕ) (client : String) (d : UserPresence) (pid : Option String) (s : Presence)
    → truthy d.user_id ≡ true
    → get (upsert_presence now client d pid s).reconnecting d.user_id ≡ none
unfolding upsert_presence
upsert-none now client d pid s t = rw (t, join-reconnecting) (cancelled s d.user_id)

-- After a user connects again, no grace timer of that user can still fire.
pub upsert_stops_timers :
    (now : ℕ) (client : String) (d : UserPresence) (pid : Option String) (s : Presence)
    → Inv s
    → truthy d.user_id ≡ true
    → any (λ (t : Timer). t.user == d.user_id) (upsert_presence now client d pid s).timers ≡ false
upsert_stops_timers now client d pid s h t =
    Owned-none _ d.user_id _ (upsert_presence-Inv now client d pid s h).owned
      (upsert-none now client d pid s t)

leave_all-has :
    (client : String) (m : Map (List String)) (pid : String)
    → has (sockets_in (leave_all client m) pid) client ≡ false
unfolding leave_all get
leave_all-has client [] pid = refl
leave_all-has client ((q, socks) ∷ rest) pid = ground (
  arith,
  eq_iff q pid,
  eq_refl client,
  has-remove socks client client,
  leave_all-has client rest pid,
)

is_waiting-set :
    (pid u : String) (rec : Map Pending) (p : Pending)
    → same_production p.production_id pid ≡ true
    → is_waiting pid (set rec u p) u ≡ true
unfolding set
is_waiting-set pid u [] p h = ground (arith, eq_refl u)
is_waiting-set pid u ((v, q) ∷ rest) p h = ground (arith, eq_iff v u, is_waiting-set pid u rest p h)

last_reconnecting :
    (client pid : String) (d : UserPresence) (s : Presence)
    → get s.active_sockets client ≡ some d
    → truthy d.user_id ≡ true
    → get s.user_to_sockets d.user_id ≡ some (client ∷ [])
    → production_for_socket client s.production_to_sockets ≡ some pid
    → is_waiting pid (remove_presence client s).reconnecting d.user_id ≡ true
unfolding remove_presence remove
last_reconnecting client pid d s active t last here =
    rw (active, t, last, eq_refl, here)
      (is_waiting-set pid d.user_id s.reconnecting
        (record { timer = s.next_timer; last_presence = d; production_id = some pid })
        (eq_refl pid))

-- When a user's only socket goes, the user stays listed in the production that the socket was in.
pub remove_keeps_listed :
    (client pid : String) (d : UserPresence) (s : Presence)
    → get s.active_sockets client ≡ some d
    → truthy d.user_id ≡ true
    → get s.user_to_sockets d.user_id ≡ some (client ∷ [])
    → production_for_socket client s.production_to_sockets ≡ some pid
    → is_some (get (unique_members (remove_presence client s) pid) d.user_id) ≡ true
remove_keeps_listed client pid d s active t last here =
    let s' = remove_presence client s in
    let waiting = last_reconnecting client pid d s active t last here in
    ground (arith, unique_members_lem s' pid d.user_id)

forget-production :
    (s : Presence) (client : String) (o : Option UserPresence)
    → (forget client o s).production_to_sockets ≡ s.production_to_sockets
unfolding start_reconnect_grace
forget-production s client none = refl
forget-production s client (some d) = ground arith

-- A removed socket is in no production and has no presence.
pub remove_presence_gone :
    (client pid : String) (s : Presence)
    → (get (remove_presence client s).active_sockets client ≡ none)
      × (has (sockets_in (remove_presence client s).production_to_sockets pid) client ≡ false)
unfolding remove_presence
remove_presence_gone client pid s =
    (forgotten (get s.active_sockets client) refl, leave_all-has client _ pid)
  where
    forgotten :
        (o : Option UserPresence)
        → get s.active_sockets client ≡ o
        → get (forget client o s).active_sockets client ≡ none
    forgotten none e = e
    forgotten (some d) e = ground (
      arith,
      eq_refl client,
      get-delete
          (if truthy d.user_id
            then drop_socket client d (get s.user_to_sockets d.user_id) s
            else s).active_sockets
          client client,
    )

join-listed :
    (client pid u : String) (s : Presence)
    → truthy pid ≡ true
    → is_user u (get s.active_sockets client) ≡ true
    → has_socket
        (join client (some pid) s).active_sockets
        (sockets_in (join client (some pid) s).production_to_sockets pid)
        u
      ≡ true
unfolding associate_with_production
join-listed client pid u s t h =
    rw (t, get-set, eq_refl)
      (In→any (λ sid. is_user u (get s.active_sockets sid)) _ client
        ((includes_iff client _).0 (rw has-add (ground (arith, eq_refl client)))) h)

upsert-has_socket :
    (now : ℕ) (client pid : String) (d : UserPresence) (s : Presence)
    → truthy d.user_id ≡ true
    → truthy pid ≡ true
    → has_socket
        (upsert_presence now client d (some pid) s).active_sockets
        (sockets_in (upsert_presence now client d (some pid) s).production_to_sockets pid)
        d.user_id
      ≡ true
unfolding upsert_presence
upsert-has_socket now client pid d s t k = rw t (
    join-listed client pid d.user_id _ k (
      ground (
        arith,
        t,
        eq_refl client,
        eq_refl d.user_id,
        get-set (cancel_grace (get s.reconnecting d.user_id) d.user_id s).active_sockets client
            (record d { last_seen = now }) client,
      )))

-- Who connects to a production is listed there.
pub upsert_listed :
    (now : ℕ) (client pid : String) (d : UserPresence) (s : Presence)
    → truthy d.user_id ≡ true
    → truthy pid ≡ true
    → is_some (get (unique_members (upsert_presence now client d (some pid) s) pid) d.user_id)
      ≡ true
upsert_listed now client pid d s t k =
    let s' = upsert_presence now client d (some pid) s in
    let socket = upsert-has_socket now client pid d s t k in
    ground (arith, unique_members_lem s' pid d.user_id)
