-- ===== src/Gateway.antt =====
-- The gateway of the websockets: src/websockets/gateways/core.gateway.ts, with the presence service
-- that it calls. Rooms are the productions that a socket has joined; the room of a tenant is the
-- `tenant_id` of the client's data. Messages to clients and persisted states are not modelled.
pub mod Confined
mod Tests
use live_ops_backend.Prelude.{
  ℕ, String, ◌==◌, Bool, true, false, not, ◌&&◌, List, [], ◌∷◌, Option, none, some, if◌then◌else◌,
  get_or,
}
use live_ops_backend.Prelude.Map.{Map, get, set, delete, add, remove}
use live_ops_backend.Presence.{
  Presence, UserPresence, upsert_presence, remove_presence, associate_with_production,
  broadcast_to_production, heartbeat,
}

-- `client.data`
pub record Client : Type 0 where
  pub user_id : String
  pub tenant_id : Option String
  pub production_id : Option String
  pub is_ndi_bridge : Bool
  pub bridge_name : Option String

pub record Gateway : Type 0 where
  pub presence : Presence
  pub clients : Map Client
  pub rooms : Map (List String)

-- the query of a handshake, and what `user.identify` carries
pub record Hello : Type 0 where
  pub production_id : Option String
  pub user_name : Option String
  pub role_id : Option String
  pub role_name : Option String

pub record Verified : Type 0 where
  pub sub : String
  pub tenant_id : Option String

abbrev pub truthy_text : Option String → Option String
truthy_text none = none
truthy_text (some s) = if s == "" then none else some s

abbrev pub joined : Option (List String) → List String
joined none = []
joined (some ps) = ps

abbrev pub rooms_of : String → Gateway → List String
rooms_of client s = joined (get s.rooms client)

-- `client.join('production_' + p)` and `client.data.productionId = p`
abbrev pub enter : String → Client → String → Gateway → Gateway
enter client d p s = record s {
  rooms = set s.rooms client (add (rooms_of client s) p);
  clients = set s.clients client (record d { production_id = some p });
}

abbrev pub with_presence : (Presence → Presence) → Gateway → Gateway
with_presence f s = record s { presence = f s.presence }

abbrev pub same_tenant : Option String → String → Bool
same_tenant none t = false
same_tenant (some x) t = x == t

-- `tenantId && production.tenantId !== tenantId`
abbrev pub is_foreign : Option String → Option String → Bool
is_foreign none owner = false
is_foreign (some t) owner = not (t == "") && not (same_tenant owner t)

abbrev pub row : ℕ → String → String → String → String → UserPresence
row now user name role_id role_name = record {
  user_id = user;
  user_name = name;
  role_id = role_id;
  role_name = role_name;
  last_seen = now;
  status = "IDLE";
}

abbrev pub left_production : Option Client → Option String
left_production none = none
left_production (some d) = truthy_text d.production_id

abbrev pub broadcast_if : Option String → Presence → Presence
broadcast_if none s = s
broadcast_if (some p) s = broadcast_to_production p s

-- the socket is gone from its rooms when this is called
unfoldable pub handle_disconnect : String → Gateway → Gateway
handle_disconnect client s = record {
  presence =
      broadcast_if (left_production (get s.clients client)) (remove_presence client s.presence);
  clients = delete s.clients client;
  rooms = delete s.rooms client;
}

-- The verification of a token, and the tenant of a production: null for an unknown production.
module _ (verify : String → Option Verified)
    (find_production : String → Option (Option String)) where
  abbrev pub admit :
      ℕ → String → Client → Hello → String → Option (Option String) → Gateway → Gateway
  admit now client d hello p none s = handle_disconnect client s
  admit now client d hello p (some owner) s =
      if is_foreign d.tenant_id owner
      then handle_disconnect client s
      else with_presence
          (λ q. broadcast_to_production p (
            upsert_presence now client
              (row now d.user_id (get_or hello.user_name "User") (get_or hello.role_id "")
                (get_or hello.role_name "Viewer"))
              (some p) q))
          (enter client d p s)

  abbrev pub greet : ℕ → String → Client → Hello → Option String → Gateway → Gateway
  greet now client d hello none s = s
  greet now client d hello (some p) s = admit now client d hello p (find_production p) s

  -- the client's data is new, whatever it was
  abbrev pub welcome : ℕ → String → Hello → Option Verified → Gateway → Gateway
  welcome now client hello none s = handle_disconnect client s
  welcome now client hello (some v) s =
      let d : Client = record {
        user_id = v.sub;
        tenant_id = truthy_text v.tenant_id;
        production_id = none;
        is_ndi_bridge = false;
        bridge_name = none;
      } in
      greet now client d hello (truthy_text hello.production_id)
        (record s { clients = set s.clients client d; rooms = delete s.rooms client })

  abbrev pub with_token : ℕ → String → Hello → Option String → Gateway → Gateway
  with_token now client hello none s = handle_disconnect client s
  with_token now client hello (some token) s = welcome now client hello (verify token) s

  unfoldable pub handle_connection : ℕ → String → Option String → Hello → Gateway → Gateway
  handle_connection now client token hello s = with_token now client hello (truthy_text token) s

  abbrev pub join_owned : String → Client → String → Option (Option String) → Gateway → Gateway
  join_owned client d p none s = s
  join_owned client d p (some owner) s =
      if is_foreign d.tenant_id owner
      then s
      else with_presence (λ q. broadcast_to_production p (associate_with_production client p q))
          (enter client d p s)

  unfoldable pub handle_production_join : String → Client → String → Gateway → Gateway
  handle_production_join client d p s = join_owned client d p (find_production p) s

-- `productionId` of the client's data and the presence of the socket stay as they are
unfoldable pub handle_production_leave : String → String → Gateway → Gateway
handle_production_leave client p s = record s {
  rooms = set s.rooms client (remove (rooms_of client s) p);
  presence = broadcast_to_production p s.presence;
}

abbrev pub set_or : Option String → String → String
set_or o other = get_or (truthy_text o) other

abbrev pub settle : String → Client → Option String → Gateway → Gateway
settle client d none s = s
settle client d (some p) s = with_presence (broadcast_to_production p) (enter client d p s)

unfoldable pub handle_user_identify : ℕ → String → Client → Hello → Gateway → Gateway
handle_user_identify now client d hello s = settle client d (truthy_text hello.production_id) (
    with_presence
      (upsert_presence now client
        (row now d.user_id (set_or hello.user_name "User") (set_or hello.role_id "")
          (set_or hello.role_name "Viewer"))
        hello.production_id)
      s)

-- `ndi.identify_bridge`, with a bridge and a production
unfoldable pub handle_identify_bridge : String → Client → String → String → Gateway → Gateway
handle_identify_bridge client d name p s =
    enter client (record d { is_ndi_bridge = true; bridge_name = some name }) p s

-- `ndi.bridge_register`: the data's production stays
unfoldable pub handle_ndi_bridge_register : String → Client → String → Gateway → Gateway
handle_ndi_bridge_register client d p s = record s {
  rooms = set s.rooms client (add (rooms_of client s) p);
  clients = set s.clients client (record d { is_ndi_bridge = true });
}

unfoldable pub handle_heartbeat : ℕ → String → Gateway → Gateway
handle_heartbeat now client s = with_presence (heartbeat now client) s
