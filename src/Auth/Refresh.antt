-- ===== src/Auth/Refresh.antt =====
-- Refreshing and ending sessions: `AuthService.refresh` and `logout` of src/auth/auth.service.ts, and
-- src/auth/sessions.service.ts.
pub mod Reuse
pub mod Revoke
use live_ops_backend.Prelude.{
  ℕ, String, ◌==◌, Bool, true, false, not, ◌&&◌, Option, none, some, Outcome, ok, throw,
  unauthorized, not_found, if◌then◌else◌, ltb, M, ◌>>=◌, ◌>>◌, throw_if, require, return, raise,
  List,
}
use live_ops_backend.Prelude.Table.{Table}
use live_ops_backend.Auth.Store.{
  User, Session, refresh_token_reuse_detected, Tokens, Fresh, Services, State, find_user,
  find_session, update_session, revoked, revoke_where, log, generate_tokens,
}

-- `!session || session.expiresAt < new Date()`
abbrev pub current : ℕ → Option Session → Option Session
current now none = none
current now (some x) = if ltb x.expires_at now then none else some x

abbrev pub tenant_of : Option User → Option String
tenant_of none = none
tenant_of (some u) = u.tenant_id

module _ (services : Services) (users : Table User) (sessions : Table Session) where
  -- the open sessions of a user
  abbrev pub is_open_of : String → Session → Bool
  is_open_of user_id x = x.user_id == user_id && not x.is_revoked

  abbrev pub report_reuse : Session → M (State services users sessions) Tokens
  report_reuse x = do
    revoke_where services users sessions (is_open_of x.user_id)
    log services users sessions (refresh_token_reuse_detected x.user_id)
    raise (unauthorized "Sesión inválida. Por seguridad, cierra sesión y vuelve a iniciar.")

  abbrev pub rotate : ℕ → Fresh → Session → M (State services users sessions) Tokens
  rotate now fresh x = do
    user ← find_user services users sessions (λ u. u.id == x.user_id)
    update_session services users sessions x.id (revoked services users sessions)
    generate_tokens services users sessions now fresh x.user_id (tenant_of user)

  unfoldable pub refresh : ℕ → Fresh → String → M (State services users sessions) Tokens
  unfolding generate_tokens
  refresh now fresh token = do
    throw_if (token == "") (unauthorized "Refresh token missing")
    found ← find_session services users sessions (λ x. x.refresh_token == token)
    x ← require (current now found) (unauthorized "La sesión ha expirado o es inválida")
    if x.is_revoked then report_reuse x else rotate now fresh x

  unfoldable pub logout : String → M (State services users sessions) (Unit {0})
  logout token = revoke_where services users sessions (λ x. x.refresh_token == token)

  unfoldable pub get_sessions : ℕ → String → State services users sessions → List Session
  get_sessions now user_id s =
      sessions.find_many (λ x. is_open_of user_id x && ltb now x.expires_at) s.sessions

  unfoldable pub revoke_session : String → String → M (State services users sessions) (Unit {0})
  revoke_session user_id session_id = do
    found ← find_session services users sessions (λ x. x.id == session_id && x.user_id == user_id)
    require found (not_found "Sesión no encontrada")
    update_session services users sessions session_id (revoked services users sessions)
    return tt

  abbrev pub is_kept : Option String → Session → Bool
  is_kept none x = false
  is_kept (some token) x = not (token == "") && x.refresh_token == token

  unfoldable pub revoke_all_sessions :
      String → Option String → M (State services users sessions) (Unit {0})
  revoke_all_sessions user_id except =
      revoke_where services users sessions (λ x. is_open_of user_id x && not (is_kept except x))
