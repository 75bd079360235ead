-- ===== src/Guards/Roles.antt =====
-- `RolesGuard.canActivate` of src/common/guards/roles.guard.ts. A role without a name is undefined,
-- which no required role is; a failed query throws as it is.
pub mod Permitted
use live_ops_backend.Prelude.{
  String, ◌==◌, Bool, true, false, ◌&&◌, ◌||◌, List, [], ◌∷◌, Option, none, some, if◌then◌else◌,
  includes, Outcome, ok, throw, forbidden, internal,
}
use live_ops_backend.Guards.Request.{Query, rejected, result, Request, production_of}

abbrev pub includes_name : List String → Option String → Bool
includes_name required none = false
includes_name required (some name) = includes name required

abbrev pub is_superadmin : Option String → Bool
is_superadmin none = false
is_superadmin (some name) = name == "SUPERADMIN"

abbrev pub is_admin_role : String → Bool
is_admin_role name = name == "SUPERADMIN" || name == "ADMIN"

abbrev pub privileges : Outcome Bool
privileges = throw (forbidden "Insufficient role privileges")

abbrev pub permit_if : Bool → Outcome Bool → Outcome Bool
permit_if true other = ok true
permit_if false other = other

-- an awaited query that is rejected rejects the guard
abbrev pub awaiting : {A : Type 0} → Query A → (A → Outcome Bool) → Outcome Bool
awaiting rejected k = throw (internal "database")
awaiting (result a) k = k a

-- The queries: the name of a user's global role (null for an unknown user, and for a user without
-- one), and the name of the user's role in a production.
module _ (find_user : String → Query (Option (Option String)))
    (find_production_user : String → String → Query (Option String)) where
  abbrev pub member_role : List String → Option String → Outcome Bool
  member_role required none = privileges
  member_role required (some name) =
      permit_if (is_admin_role name) (permit_if (includes name required) privileges)

  abbrev pub production_role : List String → String → Option String → Outcome Bool
  production_role required user none = privileges
  production_role required user (some production) =
      awaiting (find_production_user user production) (member_role required)

  abbrev pub global_role :
      List String → String → Option String → Option (Option String) → Outcome Bool
  global_role required user production none = throw (forbidden "User record not found")
  global_role required user production (some name) =
      permit_if (is_superadmin name)
        (permit_if (includes_name required name) (production_role required user production))

  abbrev pub user_role : List String → Option String → Option String → Outcome Bool
  user_role required none production = throw (forbidden "User not authenticated")
  user_role required (some user) production =
      awaiting (find_user user) (global_role required user production)

  unfoldable pub can_activate : List String → Request → Outcome Bool
  can_activate [] r = ok true
  can_activate (p ∷ ps) r = user_role (p ∷ ps) r.user (production_of r)
