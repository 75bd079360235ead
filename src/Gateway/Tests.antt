-- ===== src/Gateway/Tests.antt =====
-- Two tenants with a production each.
use live_ops_backend.Prelude.{
  String, Bool, ap, ◌==◌, ◌≡◌, refl, true, false, List, [], ◌∷◌, Option, none, some, if◌then◌else◌,
}
use live_ops_backend.Prelude.Map.{get, set, delete, has, get-empty}
use live_ops_backend.Presence.{empty}
use live_ops_backend.Gateway.{
  Client, Gateway, Hello, Verified, rooms_of, handle_connection, handle_production_join,
  handle_production_leave,
}
use live_ops_backend.Gateway.Confined.Sequences.{
  AllConfined, Signal, connects, joins, leaves, registers, is_named, never, receive, receive_all,
  receive_all-AllConfined, foreign_room_entered,
}

abbrev verify : String → Option Verified
verify token = some (record { sub = token; tenant_id = some "t1" })

abbrev find_production : String → Option (Option String)
find_production p = if p == "p1" then some (some "t1") else some (some "t2")

abbrev nobody : Gateway
nobody = record { presence = empty; clients = []; rooms = [] }

abbrev hello : Hello
hello = record { production_id = some "p2"; user_name = none; role_id = none; role_name = none }

-- the first tenant's client tries the second one's production
abbrev signals : List Signal
signals =
    connects 1 "c1" (some "ana") (record hello { production_id = some "p1" })
    ∷ joins "c1" "p2"
    ∷ leaves "c1" "p1"
    ∷ []

nobody-AllConfined : AllConfined verify find_production never nobody
nobody-AllConfined = record { confined = λ c p t d g e good m. absurd (nothing c d g) }
  where
    nothing : (c : String) (d : Client) → get nobody.clients c ≡ some d → ⊥
    nothing c d g = cc (get-empty {V = Client} c)

receive_all-AllConfined_example :
    AllConfined verify find_production
      (is_named signals)
      (receive_all verify find_production signals nobody)
receive_all-AllConfined_example =
    receive_all-AllConfined verify find_production signals nobody nobody-AllConfined

abbrev is_first : Option (Option String) → Bool
is_first (some (some t)) = t == "t1"
is_first _ = false

apart : find_production "p2" ≡ some (some "t1") → ⊥
apart owned = differ (ap is_first owned)
  where
    differ : false ≡ true → ⊥
    differ h = cc h

abbrev ana : Client
ana = record {
  user_id = "ana";
  tenant_id = some "t1";
  production_id = some "p1";
  is_ndi_bridge = false;
  bridge_name = none;
}

foreign_room_entered_example :
    let s = receive_all verify find_production signals nobody in
    (has (rooms_of "c1" s) "p2" ≡ false)
    × (has (rooms_of "c1" (receive verify find_production (registers "c1" "p2") s)) "p2" ≡ true)
unfolding handle_connection handle_production_join handle_production_leave get set delete
foreign_room_entered_example =
    foreign_room_entered verify find_production signals (registers "c1" "p2") nobody "c1" "p2" "t1"
      ana nobody-AllConfined refl refl refl refl apart refl
