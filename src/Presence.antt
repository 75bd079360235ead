-- ===== src/Presence.antt =====
-- Who is online: src/websockets/presence.service.ts. `Map` and `Set` keep insertion order; times are
-- milliseconds; a timer is an entry of `timers` until it is cleared or fires.
pub mod Invariant
pub mod Removal
pub mod Upkeep
pub mod Members
pub mod Grace
mod Tests
use live_ops_backend.Prelude.{
  ℕ, suc, ◌-◌, String, ◌==◌, Bool, true, false, not, ◌&&◌, List, [], ◌∷◌, ◌++◌, Option, none, some,
  if◌then◌else◌, ltb, eqb, get_or, filter, find, map,
}
use live_ops_backend.Prelude.Map.{Map, get, set, delete, add, remove, has}

pub record UserPresence : Type 0 where
  pub user_id : String
  pub user_name : String
  pub role_id : String
  pub role_name : String
  pub last_seen : ℕ
  pub status : String

-- an entry of `reconnecting`
pub record Pending : Type 0 where
  pub timer : ℕ
  pub last_presence : UserPresence
  pub production_id : Option String

-- a scheduled callback of `startReconnectGrace`, with what its closure holds
pub record Timer : Type 0 where
  pub tid : ℕ
  pub user : String
  pub production : Option String

pub record Presence : Type 0 where
  pub has_server : Bool
  pub active_sockets : Map UserPresence
  pub user_to_sockets : Map (List String)
  pub production_to_sockets : Map (List String)
  pub reconnecting : Map Pending
  pub timers : List Timer
  pub next_timer : ℕ
  -- the `presence.update` messages: room and members
  pub sent : List (String × List UserPresence)

-- a string used as a condition
abbrev pub truthy : String → Bool
truthy s = not (s == "")

abbrev pub is_truthy : Option String → Bool
is_truthy none = false
is_truthy (some s) = truthy s

abbrev pub sockets_in : Map (List String) → String → List String
sockets_in m k = get_or (get m k) []

abbrev pub has_timer : ℕ → Timer → Bool
has_timer n t = eqb t.tid n

unfoldable pub clear_timeout : ℕ → List Timer → List Timer
clear_timeout n = filter (λ t. not (has_timer n t))

abbrev pub add_member : Option UserPresence → Map UserPresence → Map UserPresence
add_member none members = members
add_member (some d) members = if truthy d.user_id then set members d.user_id d else members

-- the loop over the sockets of a production
pub socket_members : Map UserPresence → List String → Map UserPresence → Map UserPresence
socket_members active [] members = members
socket_members active (sid ∷ sids) members =
    socket_members active sids (add_member (get active sid) members)

abbrev pub same_production : Option String → String → Bool
same_production none pid = false
same_production (some q) pid = q == pid

abbrev pub is_absent {ℓ} : {A : Type ℓ} → Option A → Bool
is_absent none = true
is_absent (some _) = false

abbrev pub add_pending : String → String → Pending → Map UserPresence → Map UserPresence
add_pending pid user p members =
    if same_production p.production_id pid && is_absent (get members user)
    then set members user (record p.last_presence { status = "RECONNECTING" })
    else members

-- the loop over the users in their grace period
pub pending_members : String → Map Pending → Map UserPresence → Map UserPresence
pending_members pid [] members = members
pending_members pid ((user, p) ∷ rest) members =
    pending_members pid rest (add_pending pid user p members)

-- `uniqueMembers` of `getPresenceForProduction`
unfoldable pub unique_members : Presence → String → Map UserPresence
unfolding socket_members pending_members
unique_members s pid =
    pending_members pid s.reconnecting
      (socket_members s.active_sockets (sockets_in s.production_to_sockets pid) [])

unfoldable pub get_presence_for_production : Presence → String → List UserPresence
unfolding unique_members
get_presence_for_production s pid = map (λ (e : String × UserPresence). e.1) (unique_members s pid)

unfoldable pub broadcast_to_production : String → Presence → Presence
broadcast_to_production pid s =
    if s.has_server
    then record s { sent = s.sent ++ (pid, get_presence_for_production s pid) ∷ [] }
    else s

unfoldable pub associate_with_production : String → String → Presence → Presence
associate_with_production client pid s = record s {
  production_to_sockets =
      set s.production_to_sockets pid (add (sockets_in s.production_to_sockets pid) client);
}

-- the first block of `upsertPresence`
abbrev pub cancel_grace : Option Pending → String → Presence → Presence
cancel_grace none user s = s
cancel_grace (some pending) user s = record s {
  timers = clear_timeout pending.timer s.timers;
  reconnecting = delete s.reconnecting user;
}

abbrev pub track_user : String → String → Presence → Presence
track_user client user s = record s {
  user_to_sockets = set s.user_to_sockets user (add (sockets_in s.user_to_sockets user) client);
}

abbrev pub join : String → Option String → Presence → Presence
join client none s = s
join client (some pid) s = if truthy pid then associate_with_production client pid s else s

abbrev pub store : String → UserPresence → Presence → Presence
store client d s = record s { active_sockets = set s.active_sockets client d }

unfoldable pub upsert_presence : ℕ → String → UserPresence → Option String → Presence → Presence
unfolding associate_with_production
upsert_presence now client d pid s =
    let known = truthy d.user_id in
    let s₁ = if known then cancel_grace (get s.reconnecting d.user_id) d.user_id s else s in
    let s₂ = store client (record d { last_seen = now }) s₁ in
    let s₃ = if known then track_user client d.user_id s₂ else s₂ in join client pid s₃

-- `getProductionForSocket`
unfoldable pub production_for_socket : String → Map (List String) → Option String
production_for_socket client [] = none
production_for_socket client ((pid, socks) ∷ rest) =
    let other = production_for_socket client rest in if has socks client then some pid else other

abbrev pub clear_pending : Option Pending → List Timer → List Timer
clear_pending none timers = timers
clear_pending (some p) timers = clear_timeout p.timer timers

unfoldable pub start_reconnect_grace : String → UserPresence → Option String → Presence → Presence
start_reconnect_grace user last pid s =
    let cleared = clear_pending (get s.reconnecting user) s.timers in
    record s {
      timers = cleared ++ record { tid = s.next_timer; user = user; production = pid } ∷ [];
      next_timer = suc s.next_timer;
      reconnecting =
          set s.reconnecting user
            (record { timer = s.next_timer; last_presence = last; production_id = pid });
    }

abbrev pub is_empty {ℓ} : {A : Type ℓ} → List A → Bool
is_empty [] = true
is_empty (_ ∷ _) = false

-- the loop over the productions at the end of `removePresence`
unfoldable pub leave_all : String → Map (List String) → Map (List String)
leave_all client [] = []
leave_all client ((pid, socks) ∷ rest) =
    let rest' = leave_all client rest in
    if has socks client
    then if is_empty (remove socks client) then rest' else (pid, remove socks client) ∷ rest'
    else (pid, socks) ∷ rest'

abbrev pub drop_socket : String → UserPresence → Option (List String) → Presence → Presence
drop_socket client d none s = s
drop_socket client d (some socks) s =
    let left = remove socks client in
    if is_empty left
    then start_reconnect_grace d.user_id d (production_for_socket client s.production_to_sockets)
        (record s { user_to_sockets = delete s.user_to_sockets d.user_id })
    else record s { user_to_sockets = set s.user_to_sockets d.user_id left }

abbrev pub forget : String → Option UserPresence → Presence → Presence
forget client none s = s
forget client (some d) s =
    let s₁ =
      if truthy d.user_id then drop_socket client d (get s.user_to_sockets d.user_id) s else s in
    record s₁ { active_sockets = delete s₁.active_sockets client }

unfoldable pub remove_presence : String → Presence → Presence
unfolding start_reconnect_grace production_for_socket
remove_presence client s =
    let s₁ = forget client (get s.active_sockets client) s in
    record s₁ { production_to_sockets = leave_all client s₁.production_to_sockets }

-- the callback of a timer; a timer that was cleared does not run
abbrev pub on_expiry : Option Timer → Presence → Presence
on_expiry none s = s
on_expiry (some t) s =
    let s₁ = record s {
      timers = clear_timeout t.tid s.timers;
      reconnecting = delete s.reconnecting t.user;
    } in
    if is_truthy t.production then broadcast_to_production (get_or t.production "") s₁ else s₁

unfoldable pub expire : ℕ → Presence → Presence
unfolding broadcast_to_production
expire n s = on_expiry (find (has_timer n) s.timers) s

unfoldable pub get_socket_ids_for_user : Presence → String → List String
get_socket_ids_for_user s user = sockets_in s.user_to_sockets user

unfoldable pub get_inactive_sockets : ℕ → ℕ → Map UserPresence → List String
get_inactive_sockets now timeout [] = []
get_inactive_sockets now timeout ((sid, d) ∷ rest) =
    let others = get_inactive_sockets now timeout rest in
    if ltb timeout (now - d.last_seen) && not (d.status == "OFFLINE") then sid ∷ others else others

abbrev pub put_back :
    String → Option UserPresence → (UserPresence → UserPresence) → Presence → Presence
put_back client none f s = s
put_back client (some d) f s = store client (f d) s

unfoldable pub update_status : ℕ → String → String → Presence → Presence
update_status now client status s =
    put_back client (get s.active_sockets client)
      (λ d. record d { status = status; last_seen = now }) s

unfoldable pub heartbeat : ℕ → String → Presence → Presence
heartbeat now client s =
    put_back client (get s.active_sockets client)
      (λ d. record d {
        last_seen = now;
        status = if d.status == "OFFLINE" then "IDLE" else d.status;
      })
      s

unfoldable pub get_productions_with_active_users : Presence → List String
get_productions_with_active_users s =
    map (λ (e : String × List String). e.0) s.production_to_sockets

unfoldable pub set_server : Presence → Presence
set_server s = record s { has_server = true }

-- the service as it is constructed
abbrev pub empty : Presence
empty = record {
  has_server = false;
  active_sockets = [];
  user_to_sockets = [];
  production_to_sockets = [];
  reconnecting = [];
  timers = [];
  next_timer = 0;
  sent = [];
}
