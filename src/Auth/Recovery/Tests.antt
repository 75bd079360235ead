-- ===== src/Auth/Recovery/Tests.antt =====
-- Recovery, verification and registration on concrete tables.
use live_ops_backend.Prelude.{String, ◌==◌, refl, false, [], ◌∷◌, Option, none, some}
use live_ops_backend.Guards.{codes}
use live_ops_backend.Prelude.Table.{Table, list_table}
use live_ops_backend.Auth.Store.{User, Services}
use live_ops_backend.Auth.Recovery.{PasswordReset, Recovery}
use live_ops_backend.Auth.Register.{
  Tenant, RegisterUser, FreshUser, Registering, register, new_user,
}
use live_ops_backend.Auth.Register.Registered.{Registered, register-Registered}

abbrev services : Services
services = record {
  compare = λ given stored. given == stored;
  hash = λ p. p;
  sign = λ now ttl c. c.sub;
  verify = λ now t. none;
  crypto = record { hmac = λ key message. []; utf8 = codes; to_upper_case = λ t. t };
  normal_email = λ e. e;
}

abbrev users : Table User
users = list_table (λ (u : User). u.id)

abbrev resets : Table PasswordReset
resets = list_table (λ (r : PasswordReset). r.token)

abbrev tenants : Table Tenant
tenants = list_table (λ (t : Tenant). t.id)

abbrev leo : User
leo = record {
  id = "u1";
  email = "leo@tv";
  password = "old";
  is_verified = false;
  verification_token = some "123456";
  verification_expires_at = some 50;
  deleted_at = none;
  tenant_id = none;
  global_role_id = none;
  two_factor_enabled = false;
  two_factor_secret = none;
  login_attempts = 5;
  locked_until = some 90;
}

abbrev asked : Recovery services users resets
asked = record {
  users = leo ∷ [];
  resets = record { email = "leo@tv"; token = "t"; expires_at = 60 } ∷ [];
  mails = [];
}

abbrev find_role : String → Option String
find_role name = some name

abbrev workspace_of : Option String → String → String
workspace_of name email = email

abbrev nobody : Registering services users tenants find_role workspace_of
nobody = record { users = []; tenants = []; notices = [] }

abbrev fresh : FreshUser
fresh = record { user_id = "u9"; tenant_id = "w9"; code = "654321" }

abbrev request : RegisterUser
request = record { email = "eva@tv"; password = "pw"; password_confirm = "pw"; name = none }

abbrev registered : Registering services users tenants find_role workspace_of
unfolding register
registered = (register services users tenants find_role workspace_of 7 fresh request nobody).1

register-Registered_example :
    Registered services users tenants find_role workspace_of fresh request nobody registered (
      new_user services users tenants find_role workspace_of 7 fresh "eva@tv" "pw" "SUPERADMIN"
        "w9")
unfolding register
register-Registered_example =
    register-Registered services users tenants find_role workspace_of 7 fresh request nobody
      registered
      (new_user services users tenants find_role workspace_of 7 fresh "eva@tv" "pw" "SUPERADMIN"
        "w9")
      refl
