-- ===== src/Presence/Members.antt =====
-- Who is listed in a production.
use live_ops_backend.Prelude.{
  String, ◌==◌, ◌≡◌, Bool, false, ◌&&◌, ◌||◌, List, [], ◌∷◌, Option, none, some, arith, eq_iff, any,
  is_some,
}
use live_ops_backend.Prelude.Map.{Map, get, get-set, get-empty}
use live_ops_backend.Presence.{
  Presence, UserPresence, Pending, truthy, sockets_in, add_member, socket_members, same_production,
  add_pending, pending_members, unique_members,
}

-- `u` is the user of a presence record
abbrev pub is_user : String → Option UserPresence → Bool
is_user u none = false
is_user u (some d) = truthy d.user_id && d.user_id == u

-- `u` has one of these sockets
abbrev pub has_socket : Map UserPresence → List String → String → Bool
has_socket active sids u = any (λ sid. is_user u (get active sid)) sids

-- `u` is in its grace period, for this production
abbrev pub is_waiting : String → Map Pending → String → Bool
is_waiting pid [] u = false
is_waiting pid ((user, p) ∷ rest) u =
    (user == u && same_production p.production_id pid) || is_waiting pid rest u

add_member_lem :
    (o : Option UserPresence) (m : Map UserPresence) (u : String)
    → is_some (get (add_member o m) u) ≡ (is_some (get m u) || is_user u o)
add_member_lem none m u = ground arith
add_member_lem (some d) m u = ground (arith, get-set m d.user_id d u, eq_iff d.user_id u)

socket_members_lem :
    (active : Map UserPresence) (sids : List String) (m : Map UserPresence) (u : String)
    → is_some (get (socket_members active sids m) u)
      ≡ (is_some (get m u) || has_socket active sids u)
unfolding socket_members
socket_members_lem active [] m u = ground arith
socket_members_lem active (sid ∷ sids) m u = ground (
  arith,
  socket_members_lem active sids (add_member (get active sid) m) u,
  add_member_lem (get active sid) m u,
)

add_pending_lem :
    (pid user : String) (p : Pending) (m : Map UserPresence) (u : String)
    → is_some (get (add_pending pid user p m) u)
      ≡ (is_some (get m u) || (user == u && same_production p.production_id pid))
add_pending_lem pid user p m u =
    ground
      (arith, get-set m user (record p.last_presence { status = "RECONNECTING" }) u, eq_iff user u)

pending_members_lem :
    (pid : String) (ps : Map Pending) (m : Map UserPresence) (u : String)
    → is_some (get (pending_members pid ps m) u) ≡ (is_some (get m u) || is_waiting pid ps u)
unfolding pending_members
pending_members_lem pid [] m u = ground arith
pending_members_lem pid ((user, p) ∷ rest) m u = ground (
  arith,
  pending_members_lem pid rest (add_pending pid user p m) u,
  add_pending_lem pid user p m u,
)

-- A user is listed in a production exactly when one of the production's sockets is the user's, or
-- the user is in a grace period that began in that production.
pub unique_members_lem :
    (s : Presence) (pid u : String)
    → is_some (get (unique_members s pid) u) ≡ (
        has_socket s.active_sockets (sockets_in s.production_to_sockets pid) u
        || is_waiting pid s.reconnecting u)
unfolding unique_members
unique_members_lem s pid u =
    let m = socket_members s.active_sockets (sockets_in s.production_to_sockets pid) [] in
    ground (
      arith,
      pending_members_lem pid s.reconnecting m u,
      socket_members_lem s.active_sockets (sockets_in s.production_to_sockets pid) [] u,
      get-empty {V = UserPresence} u,
    )
