-- ===== src/Auth/Login.antt =====
-- `AuthService.login` of src/auth/auth.service.ts.
pub mod Lockout
pub mod Success
use live_ops_backend.Prelude.{
  ℕ, ◌+◌, ◌-◌, ◌*◌, ◌/◌, String, ◌==◌, Bool, true, false, not, ◌&&◌, Option, none, some, Outcome,
  ok, throw, unauthorized, forbidden, locked_out, if◌then◌else◌, ltb, leb, is_some, M, ◌>>=◌, ◌>>◌,
  throw_if, require, return, raise,
}
use live_ops_backend.Prelude.Table.{Table}
use live_ops_backend.Auth.Store.{
  User, Session, user_login, Tokens, Fresh, Services, Claims, State, find_user, update_user, log,
  generate_tokens,
}

-- `LoginResult | TwoFactorRequiredResult`
pub data LoginReply : Type 0 where
  logged_in : Option User → Tokens → LoginReply
  two_factor_required : String → LoginReply

abbrev pub max_login_attempts : ℕ
max_login_attempts = 5

abbrev pub lockout_ms : ℕ
lockout_ms = 15 * 60 * 1000

abbrev pub is_locked : ℕ → Option ℕ → Bool
is_locked now none = false
is_locked now (some t) = ltb now t

-- Math.ceil((lockedUntil - now) / 60000)
abbrev pub minutes_left : ℕ → Option ℕ → ℕ
minutes_left now none = 0
minutes_left now (some t) = (t - now + 59999) / 60000

abbrev pub bad_credentials : String
bad_credentials = "Usuario o contraseña inválidos"

-- `!user || user.deletedAt`
abbrev pub present : Option User → Option User
present none = none
present (some u) = if is_some u.deleted_at then none else some u

abbrev pub lock_after : ℕ → ℕ → Option ℕ
lock_after now attempts = if leb max_login_attempts attempts then some (now + lockout_ms) else none

-- the row after a wrong password
abbrev pub failed : ℕ → User → ℕ → User → User
failed now u attempts row = record row {
  login_attempts = attempts;
  locked_until = lock_after now attempts;
}

-- the payload that only a second factor is to follow; it is good for five minutes
abbrev pub pending : String → Claims
pending user_id = record { sub = user_id; tenant_id = none; kind = some "2fa_pending" }

abbrev pub pending_ms : ℕ
pending_ms = 5 * 60 * 1000

module _ (services : Services) (users : Table User) (sessions : Table Session) where
  abbrev pub reject_password : ℕ → User → M (State services users sessions) LoginReply
  reject_password now u = do
    let attempts = u.login_attempts + 1
    update_user services users sessions u.id (failed now u attempts)
    throw_if (is_some (lock_after now attempts))
        (forbidden "Demasiados intentos fallidos. Cuenta bloqueada por 15 minutos.")
    raise (unauthorized bad_credentials)

  abbrev pub complete_login : ℕ → Fresh → User → M (State services users sessions) LoginReply
  complete_login now fresh u = do
    log services users sessions (user_login u.id)
    tokens ← generate_tokens services users sessions now fresh u.id u.tenant_id
    full ← find_user services users sessions (λ row. row.id == u.id)
    return (logged_in full tokens)

  abbrev pub accept_password : ℕ → Fresh → User → M (State services users sessions) LoginReply
  accept_password now fresh u = do
    throw_if (not u.is_verified)
        (unauthorized "Por favor, verifica tu cuenta antes de iniciar sesión")
    update_user services users sessions u.id
        (λ row. record row { login_attempts = 0; locked_until = none })
    if u.two_factor_enabled
        then return (two_factor_required (services.sign now pending_ms (pending u.id)))
        else complete_login now fresh u

  abbrev pub attempt : ℕ → Fresh → String → User → M (State services users sessions) LoginReply
  attempt now fresh password u = do
    throw_if (is_locked now u.locked_until) (locked_out (minutes_left now u.locked_until))
    if services.compare password u.password
        then accept_password now fresh u
        else reject_password now u

  unfoldable pub login : ℕ → Fresh → String → String → M (State services users sessions) LoginReply
  unfolding generate_tokens
  login now fresh email password = do
    found ← find_user services users sessions (λ row. row.email == services.normal_email email)
    u ← require (present found) (unauthorized bad_credentials)
    attempt now fresh password u
