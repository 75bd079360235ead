-- ===== src/Auth/OAuth.antt =====
-- Logins through a provider: src/auth/oauth.service.ts. `find_role` is the roles after
-- seedDefaultRoles; `upper` is `toUpperCase`. The name and the picture of a new user are left out, as
-- in the other rows.
pub mod Linked
pub mod Barred
mod Tests
use live_ops_backend.Prelude.{
  ℕ, zero, String, ◌==◌, Bool, true, false, ◌&&◌, List, [], ◌∷◌, ◌++◌, Option, none, some, Outcome,
  ok, M, ◌>>=◌, ◌>>◌, return, reads, writes,
}
use live_ops_backend.Prelude.Table.{Table}
use live_ops_backend.Auth.Store.{
  User, Session, user_login_oauth, Tokens, Fresh, Services, State, find_user, log, generate_tokens,
}
use live_ops_backend.Auth.Login.{LoginReply, logged_in}
use live_ops_backend.Auth.Refresh.{tenant_of}
use live_ops_backend.Auth.Register.{Tenant}

pub record OAuthProfile : Type 0 where
  pub provider : String
  pub provider_id : String
  pub email : String
  pub name : String

pub record OAuthAccount : Type 0 where
  pub id : String
  pub user_id : String
  pub provider : String
  pub provider_id : String

-- the ids of the rows that a login may create, and the random password
pub record FreshRows : Type 0 where
  pub account_id : String
  pub tenant_id : String
  pub user_id : String
  pub password : String
  pub session : Fresh

pub record OAuthState (S A T : Type 0) : Type 0 where
  pub auth : S
  pub accounts : A
  pub tenants : T

-- the account of a profile
abbrev pub is_account_of : OAuthProfile → OAuthAccount → Bool
is_account_of p a = a.provider == p.provider && a.provider_id == p.provider_id

module _ (services : Services) (users : Table User) (sessions : Table Session)
    (accounts : Table OAuthAccount) (tenants : Table Tenant)
    -- `role.findUnique({ where: { name } })`, its id
    (find_role : String → Option String)
    -- `${profile.name}'s Workspace`
    (workspace_of : String → String) (upper : String → String) where
  abbrev pub LoggingIn : Type 0
  LoggingIn = OAuthState (State services users sessions) accounts.Store tenants.Store

  abbrev pub on_auth : {A : Type 0} → M (State services users sessions) A → M LoggingIn A
  on_auth m s = let (r, auth) = m s.auth in (r, record s { auth = auth })

  abbrev pub link : FreshRows → OAuthProfile → String → M LoggingIn (Unit {0})
  link fresh p user_id = writes (λ s. record s {
    accounts =
        accounts.create
          (record {
            id = fresh.account_id;
            user_id = user_id;
            provider = p.provider;
            provider_id = p.provider_id;
          })
          s.accounts;
  })

  abbrev pub oauth_user : FreshRows → OAuthProfile → User
  oauth_user fresh p = record {
    id = fresh.user_id;
    email = p.email;
    password = services.hash fresh.password;
    is_verified = true;
    verification_token = none;
    verification_expires_at = none;
    deleted_at = none;
    tenant_id = some fresh.tenant_id;
    global_role_id = find_role "VIEWER";
    two_factor_enabled = false;
    two_factor_secret = none;
    login_attempts = zero;
    locked_until = none;
  }

  abbrev pub create_user : User → M (State services users sessions) (Unit {0})
  create_user u = writes (λ s. record s { users = users.create u s.users })

  -- `userId` and `tenantId` of a new user
  abbrev pub sign_up : FreshRows → OAuthProfile → M LoggingIn (String × Option String)
  sign_up fresh p = do
    writes (λ s. record s {
      tenants =
          tenants.create (record { id = fresh.tenant_id; name = workspace_of p.name }) s.tenants;
    })
    on_auth (create_user (oauth_user fresh p))
    link fresh p fresh.user_id
    return (fresh.user_id, some fresh.tenant_id)

  -- of a profile that no account is linked to
  abbrev pub adopt : FreshRows → OAuthProfile → Option User → M LoggingIn (String × Option String)
  adopt fresh p none = sign_up fresh p
  adopt fresh p (some u) = do link fresh p u.id; return (u.id, u.tenant_id)

  abbrev pub identify :
      FreshRows → OAuthProfile → Option OAuthAccount → M LoggingIn (String × Option String)
  identify fresh p (some a) = do
    user ← on_auth (find_user services users sessions (λ u. u.id == a.user_id))
    return (a.user_id, tenant_of user)
  identify fresh p none = do
    existing ← on_auth (find_user services users sessions (λ u. u.email == p.email))
    adopt fresh p existing

  abbrev pub open_session :
      ℕ → FreshRows → OAuthProfile → String × Option String → M LoggingIn LoginReply
  open_session now fresh p (user_id, tenant_id) = do
    on_auth (log services users sessions (user_login_oauth (upper p.provider) user_id))
    tokens ← on_auth (generate_tokens services users sessions now fresh.session user_id tenant_id)
    full ← on_auth (find_user services users sessions (λ u. u.id == user_id))
    return (logged_in full tokens)

  unfoldable pub handle_oauth_login : ℕ → FreshRows → OAuthProfile → M LoggingIn LoginReply
  unfolding generate_tokens
  handle_oauth_login now fresh p = do
    account ← reads (λ s. accounts.find_first (is_account_of p) s.accounts)
    who ← identify fresh p account
    open_session now fresh p who
