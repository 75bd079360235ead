-- ===== src/Auth/Register.antt =====
-- Registration: `AuthService.register` of src/auth/auth.service.ts. Tenants lie in the order of their
-- creation; the name of a new workspace is a parameter.
pub mod Registered
use live_ops_backend.Prelude.{
  ℕ, zero, ◌+◌, ◌*◌, String, ◌==◌, Bool, true, false, not, List, [], ◌∷◌, ◌++◌, Option, none, some,
  Outcome, ok, throw, bad_request, conflict, internal, if◌then◌else◌, eqb, length, is_some, M,
  ◌>>=◌, ◌>>◌, throw_if, require, return, reads, writes,
}
use live_ops_backend.Prelude.Table.{Table}
use live_ops_backend.Auth.Store.{User, Services}

pub record Tenant : Type 0 where
  pub id : String
  pub name : String

pub record RegisterUser : Type 0 where
  pub email : String
  pub password : String
  pub password_confirm : String
  pub name : Option String

-- the ids of the rows that a registration creates, and its verification code
pub record FreshUser : Type 0 where
  pub user_id : String
  pub tenant_id : String
  pub code : String

pub data Notice : Type 0 where
  verification_mail : String → String → Notice
  user_register : String → Notice

pub record Registry (U T : Type 0) : Type 0 where
  pub users : U
  pub tenants : T
  pub notices : List Notice

abbrev pub role_for : Bool → String
role_for first = if first then "SUPERADMIN" else "VIEWER"

abbrev pub missing_role : Bool → String
missing_role first = if first then "Role SUPERADMIN not found" else "Role VIEWER not found"

module _ (services : Services) (users : Table User) (tenants : Table Tenant)
    -- `role.findUnique({ where: { name } })`, its id
    (find_role : String → Option String) (workspace_of : Option String → String → String) where
  abbrev pub Registering : Type 0
  Registering = Registry users.Store tenants.Store

  -- `user.count() === 0`
  abbrev pub is_first_user : Registering → Bool
  is_first_user s = eqb (length (users.find_many (λ u. true) s.users)) zero

  abbrev pub new_user : ℕ → FreshUser → String → String → String → String → User
  new_user now fresh email password role tenant = record {
    id = fresh.user_id;
    email = email;
    password = services.hash password;
    is_verified = false;
    verification_token = some fresh.code;
    verification_expires_at = some (now + 15 * 60 * 1000);
    deleted_at = none;
    tenant_id = some tenant;
    global_role_id = some role;
    two_factor_enabled = false;
    two_factor_secret = none;
    login_attempts = zero;
    locked_until = none;
  }

  abbrev pub own_tenant : FreshUser → Option String → String → M Registering String
  own_tenant fresh name email = do
    writes (λ s. record s {
      tenants =
          tenants.create (record { id = fresh.tenant_id; name = workspace_of name email })
            s.tenants;
    })
    return fresh.tenant_id

  abbrev pub default_tenant : M Registering String
  default_tenant = do
    oldest ← reads (λ s. tenants.find_first (λ t. true) s.tenants)
    tenant ← require oldest (internal "No tenant found")
    return tenant.id

  unfoldable pub register : ℕ → FreshUser → RegisterUser → M Registering User
  register now fresh dto = do
    let email = services.normal_email dto.email
    throw_if (not (dto.password == dto.password_confirm))
        (bad_request "Las contraseñas no coinciden")
    existing ← reads (λ s. users.find_first (λ u. u.email == email) s.users)
    throw_if (is_some existing) (conflict "El correo electrónico ya está en uso")
    first ← reads is_first_user
    role ← require (find_role (role_for first)) (internal (missing_role first))
    tenant ← if first then own_tenant fresh dto.name email else default_tenant
    let user = new_user now fresh email dto.password role tenant
    writes (λ s. record s { users = users.create user s.users })
    writes (λ s. record s {
      notices = s.notices ++ verification_mail email fresh.code ∷ user_register user.id ∷ [];
    })
    return user
