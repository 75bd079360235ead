-- ===== src/Guards/Permissions.antt =====
-- `PermissionsGuard.canActivate` of src/common/guards/permissions.guard.ts.
pub mod Granted
use live_ops_backend.Prelude.{
  String, ◌==◌, Bool, true, false, not, ◌&&◌, ◌||◌, List, [], ◌∷◌, ◌++◌, Option, none, some,
  if◌then◌else◌, all, includes, Outcome, ok, throw, forbidden,
}
use live_ops_backend.Guards.Request.{
  Query, rejected, result, DbRole, actions_of, Request, production_of, ends_with,
}

-- `implicitPermissions`
abbrev pub implicit_permissions : List String
implicit_permissions =
    "production:view" ∷ "rundown:view" ∷ "script:view" ∷ "intercom:view" ∷ "analytics:view"
    ∷ "social:view" ∷ "automation:view" ∷ "media:view" ∷ "streaming:view" ∷ []

abbrev pub is_admin_name : String → Bool
is_admin_name name = name == "SUPERADMIN" || name == "ADMIN"

abbrev pub is_read : String → Bool
is_read p = ends_with p ":view" || (ends_with p ":logs" || p == "audit:view")

-- every required permission is held
abbrev pub covers : List String → List String → Bool
covers held required = all (λ p. includes p held) required

abbrev pub insufficient : Outcome Bool
insufficient = throw (forbidden "Insufficient permissions")

abbrev pub grant_if : Bool → Outcome Bool → Outcome Bool
grant_if true other = ok true
grant_if false other = other

-- the `catch` that turns any failure of a query into a refusal
abbrev pub refuse_rejected : {A : Type 0} → Query A → (A → Outcome Bool) → Outcome Bool
refuse_rejected rejected k = insufficient
refuse_rejected (result a) k = k a

-- `toUpperCase` and `trim`, and the two queries: the role of a user, null for an unknown user, and
-- the role of a user in a production.
module _ (to_upper_case trim : String → String)
    (find_user : String → Query (Option (Option DbRole)))
    (find_production_user : String → String → Query (Option DbRole)) where
  abbrev pub global_name : Option DbRole → String
  global_name none = ""
  global_name (some r) = trim (to_upper_case r.name)

  abbrev pub global_actions : Option DbRole → List String
  global_actions none = []
  global_actions (some r) = actions_of r.permissions

  -- by the name of the global role
  abbrev pub name_grants : String → List String → Bool
  name_grants name required = is_admin_name name || (name == "VIEWER" && all is_read required)

  abbrev pub member_grants : List String → Option DbRole → Outcome Bool
  member_grants required none = insufficient
  member_grants required (some r) =
      grant_if (is_admin_name (to_upper_case r.name))
        (grant_if (covers (actions_of r.permissions ++ implicit_permissions) required) insufficient)

  abbrev pub check_production : List String → String → Option String → Outcome Bool
  check_production required user none = insufficient
  check_production required user (some production) =
      refuse_rejected (find_production_user user production) (member_grants required)

  abbrev pub check_user :
      List String → String → Option String → Option (Option DbRole) → Outcome Bool
  check_user required user production none = throw (forbidden "User record not found")
  check_user required user production (some role) =
      grant_if (name_grants (global_name role) required) (
        grant_if (covers (global_actions role) required)
          (check_production required user production))

  abbrev pub check_request : List String → Option String → Option String → Outcome Bool
  check_request required none production = throw (forbidden "User not authenticated")
  check_request required (some user) production =
      refuse_rejected (find_user user) (check_user required user production)

  -- `required` are the handler's or the class's permissions, [] where there are none
  unfoldable pub can_activate : List String → Request → Outcome Bool
  can_activate [] r = ok true
  can_activate (p ∷ ps) r = check_request (p ∷ ps) r.user (production_of r)
