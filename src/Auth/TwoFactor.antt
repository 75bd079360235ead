-- ===== src/Auth/TwoFactor.antt =====
-- The second factor: src/auth/two-factor.service.ts, and the bearer check of src/auth/jwt.strategy.ts.
-- The QR code of a new secret is not modelled.
pub mod Checked
use live_ops_backend.Prelude.{
  ℕ, String, ◌==◌, Bool, true, false, not, ◌&&◌, ◌||◌, Option, none, some, Outcome, ok, throw,
  unauthorized, bad_request, not_found, if◌then◌else◌, is_some, M, ◌>>=◌, ◌>>◌, throw_if, require,
  return, raise,
}
use live_ops_backend.Prelude.Table.{Table}
use live_ops_backend.Auth.Store.{
  User, Session, user_login_2fa, Tokens, Fresh, Services, Claims, State, find_user, update_user,
  log, generate_tokens,
}
use live_ops_backend.Auth.Totp.{verify_totp_token}
use live_ops_backend.Auth.Login.{LoginReply, logged_in}

-- `{ userId, tenantId }`, what a request's user is
pub record ValidatedUser : Type 0 where
  pub user_id : String
  pub tenant_id : Option String

-- `JwtStrategy.validate`
unfoldable pub validate : Claims → ValidatedUser
validate c = record { user_id = c.sub; tenant_id = c.tenant_id }

abbrev pub secret_of : Option User → Option String
secret_of none = none
secret_of (some u) = u.two_factor_secret

abbrev pub enabled_secret : Option User → Option String
enabled_secret none = none
enabled_secret (some u) = if u.two_factor_enabled then u.two_factor_secret else none

-- the user together with a secret
abbrev pub with_secret : Option User → Option (User × String)
with_secret none = none
with_secret (some u) = elim u.two_factor_secret [ none ↦ none | some secret ↦ some (u, secret) ]

abbrev pub is_pending : Option String → Bool
is_pending none = false
is_pending (some kind) = kind == "2fa_pending"

module _ (services : Services) (users : Table User) (sessions : Table Session) where
  abbrev pub checked : Outcome Bool → M (State services users sessions) Bool
  checked o s = (o, s)

  -- the user behind a bearer token: passport verifies it and asks `validate`
  unfoldable pub bearer : ℕ → String → Option ValidatedUser
  bearer now token = elim (services.verify now token) [ none ↦ none | some c ↦ some (validate c) ]

  -- `secret` is the fresh random secret
  unfoldable pub generate_two_factor_secret :
      String → String → M (State services users sessions) String
  generate_two_factor_secret secret user_id = do
    found ← find_user services users sessions (λ u. u.id == user_id)
    require found (not_found "Usuario no encontrado")
    update_user services users sessions user_id (λ u. record u { two_factor_secret = some secret })
    return secret

  unfoldable pub enable_two_factor :
      ℕ → String → String → M (State services users sessions) (Unit {0})
  enable_two_factor now user_id code = do
    found ← find_user services users sessions (λ u. u.id == user_id)
    secret ←
        require (secret_of found)
          (bad_request "Primero genera el secreto 2FA con /auth/2fa/generate")
    valid ← checked (verify_totp_token services.crypto now code secret)
    throw_if (not valid) (bad_request "Código inválido. No se habilitó el 2FA.")
    update_user services users sessions user_id (λ u. record u { two_factor_enabled = true })
    return tt

  unfoldable pub disable_two_factor :
      ℕ → String → String → M (State services users sessions) (Unit {0})
  disable_two_factor now user_id code = do
    found ← find_user services users sessions (λ u. u.id == user_id)
    secret ← require (enabled_secret found) (bad_request "El 2FA no está habilitado")
    valid ← checked (verify_totp_token services.crypto now code secret)
    throw_if (not valid) (bad_request "Código inválido")
    update_user services users sessions user_id
        (λ u. record u { two_factor_enabled = false; two_factor_secret = none })
    return tt

  unfoldable pub login_with_two_factor :
      ℕ → Fresh → String → String → M (State services users sessions) LoginReply
  unfolding generate_tokens
  login_with_two_factor now fresh temp_token code = do
    payload ←
        require (services.verify now temp_token) (unauthorized "Token temporal inválido o expirado")
    throw_if (not (is_pending payload.kind)) (unauthorized "Token temporal inválido")
    found ← find_user services users sessions (λ u. u.id == payload.sub)
    (u, secret) ← require (with_secret found) (unauthorized "2FA no configurado")
    valid ← checked (verify_totp_token services.crypto now code secret)
    throw_if (not valid) (unauthorized "Código 2FA inválido")
    log services users sessions (user_login_2fa u.id)
    tokens ← generate_tokens services users sessions now fresh u.id u.tenant_id
    full ← find_user services users sessions (λ row. row.id == u.id)
    return (logged_in full tokens)
