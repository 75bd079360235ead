-- ===== src/Auth/OAuth/Tests.antt =====
-- Logins through a provider on concrete tables.
use live_ops_backend.Prelude.{
  String, ◌==◌, ◌≡◌, refl, true, false, List, [], ◌∷◌, ◌++◌, Option, none, some,
}
use live_ops_backend.Prelude.Table.{Table, list_table}
use live_ops_backend.Auth.Store.{User, Session, Services}
use live_ops_backend.Auth.Login.{login}
use live_ops_backend.Auth.Register.{Tenant}
use live_ops_backend.Auth.OAuth.{
  OAuthProfile, OAuthAccount, FreshRows, LoggingIn, handle_oauth_login,
}
use live_ops_backend.Auth.OAuth.Barred.{handle_oauth_login-login}
use live_ops_backend.Auth.OAuth.Linked.{session_of, handle_oauth_login-twice}

abbrev services : Services
services = record {
  compare = λ given stored. given == stored;
  hash = λ p. p;
  sign = λ now ttl c. c.sub;
  verify = λ now t. none;
  crypto = record { hmac = λ key message. []; utf8 = λ t. []; to_upper_case = λ t. t };
  normal_email = λ e. e;
}

abbrev users : Table User
users = list_table (λ (u : User). u.id)

abbrev sessions : Table Session
sessions = list_table (λ (x : Session). x.id)

abbrev accounts : Table OAuthAccount
accounts = list_table (λ (a : OAuthAccount). a.id)

abbrev tenants : Table Tenant
tenants = list_table (λ (t : Tenant). t.id)

abbrev find_role : String → Option String
find_role name = some name

abbrev same : String → String
same t = t

abbrev profile : OAuthProfile
profile = record { provider = "google"; provider_id = "g1"; email = "eva@tv"; name = "Eva" }

abbrev fresh : FreshRows
fresh = record {
  account_id = "a1";
  tenant_id = "w1";
  user_id = "u1";
  password = "x";
  session = record { session_id = "s1"; token = "t1" };
}

abbrev next : FreshRows
next = record fresh { session = record { session_id = "s2"; token = "t2" } }

-- deleted, locked, not verified, and with a second factor
abbrev gone : User
gone = record {
  id = "u7";
  email = "eva@tv";
  password = "pw";
  is_verified = false;
  verification_token = none;
  verification_expires_at = none;
  deleted_at = some 1;
  tenant_id = none;
  global_role_id = none;
  two_factor_enabled = true;
  two_factor_secret = some "MZXW6YQ";
  login_attempts = 5;
  locked_until = some 1000000;
}

abbrev state_of : List User → LoggingIn services users sessions accounts tenants find_role same same
state_of rows = record {
  auth = record { users = rows; sessions = []; audit = [] };
  accounts = [];
  tenants = [];
}

handle_oauth_login-login_example :
    let s = state_of (gone ∷ []) in
    let by_password = (login services users sessions 10 fresh.session "eva@tv" "pw" s.auth).1 in
    let by_provider =
      (handle_oauth_login services users sessions accounts tenants find_role same same 10 fresh
        profile s).1 in
    (sessions.rows by_password.sessions ≡ sessions.rows s.auth.sessions)
    × (sessions.rows by_provider.auth.sessions
        ≡ sessions.rows s.auth.sessions
          ++ session_of services users sessions 10 fresh.session "u7" ∷ [])
handle_oauth_login-login_example =
    handle_oauth_login-login services users sessions accounts tenants find_role same same 10 fresh
      profile "eva@tv" "pw" (state_of (gone ∷ [])) gone refl refl refl refl

handle_oauth_login-twice_example :
    let login = handle_oauth_login services users sessions accounts tenants find_role same same in
    let s' = (login 10 fresh profile (state_of [])).1 in
    let t = (login 20 next profile s').1 in
    (user_id : String) × (sessions.rows s'.auth.sessions
      ≡ session_of services users sessions 10 fresh.session user_id ∷ [])
    × (sessions.rows t.auth.sessions
        ≡ sessions.rows s'.auth.sessions
          ++ session_of services users sessions 20 next.session user_id ∷ [])
    × (t.auth.users ≡ s'.auth.users)
    × (t.accounts ≡ s'.accounts)
    × (t.tenants ≡ s'.tenants)
handle_oauth_login-twice_example =
    handle_oauth_login-twice services users sessions accounts tenants find_role same same 10 20
      fresh next profile (state_of [])
