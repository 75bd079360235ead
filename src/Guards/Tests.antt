-- ===== src/Guards/Tests.antt =====
-- Requests of a viewer and of a member of a production; instances of the theorems about the guards.
use live_ops_backend.Prelude.{
  ◌≡◌, refl, String, ◌==◌, true, false, [], ◌∷◌, Option, none, some, ok, ◌↔◌, if◌then◌else◌,
}
use live_ops_backend.Guards.Request.{
  Query, result, DbRole, Request, is_uuid, ends_with, production_of,
}
use live_ops_backend.Guards.Permissions
use live_ops_backend.Guards.Permissions.Granted.{Granted}
use live_ops_backend.Guards.Permissions.Granted
use live_ops_backend.Guards.Roles
use live_ops_backend.Guards.Roles.Permitted.{Permitted}
use live_ops_backend.Guards.Roles.Permitted

abbrev id : String
id = "123e4567-e89b-42d3-a456-426614174000"

abbrev request : Request
request = record {
  user = some "u1";
  param_production_id = none;
  param_id = some id;
  body_production_id = none;
}

uuids : (is_uuid id ≡ true) × (is_uuid "123e4567-e89b-62d3-a456-426614174000" ≡ false)
unfolding is_uuid
uuids = (refl, refl)

abbrev viewer : String → Query (Option (Option DbRole))
viewer u = result (some (some (record { name = "VIEWER"; permissions = [] })))

abbrev no_member : String → String → Query (Option DbRole)
no_member u p = result none

abbrev as_is : String → String
as_is s = s

reads :
    Permissions.can_activate as_is as_is viewer no_member
      ("media:view" ∷ "automation:logs" ∷ [])
      request
    ≡ ok true
unfolding Permissions.can_activate ends_with
reads = refl

permissions_example :
    (Permissions.can_activate as_is as_is viewer no_member ("media:manage" ∷ []) request ≡ ok true)
    ↔ Granted as_is as_is viewer no_member ("media:manage" ∷ []) request
permissions_example =
    Granted.can_activate-Granted as_is as_is viewer no_member ("media:manage" ∷ []) request

abbrev guest : String → Query (Option (Option String))
guest u = result (some (some "GUEST"))

abbrev director : String → String → Query (Option String)
director u p = if p == id then result (some "DIRECTOR") else result none

directs : Roles.can_activate guest director ("DIRECTOR" ∷ []) request ≡ ok true
unfolding Roles.can_activate production_of is_uuid
directs = refl

roles_example :
    (Roles.can_activate guest director ("DIRECTOR" ∷ []) request ≡ ok true)
    ↔ Permitted guest director ("DIRECTOR" ∷ []) request
roles_example = Permitted.can_activate-Permitted guest director ("DIRECTOR" ∷ []) request
