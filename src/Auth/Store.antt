-- ===== src/Auth/Store.antt =====
-- The rows and the state of src/auth: users and sessions are tables, a parameter. Times are
-- milliseconds. Password hashing, JWT signing and cryptography are parameters too; random values are
-- arguments.
use live_ops_backend.Prelude.{
  ℕ, ◌+◌, ◌*◌, String, Bool, true, false, List, [], ◌∷◌, ◌++◌, Option, none, some, ok, throw,
  record_missing, M,
}
use live_ops_backend.Prelude.Table.{Table}
use live_ops_backend.Auth.Totp.{Crypto}

pub record User : Type 0 where
  pub id : String
  pub email : String
  pub password : String
  pub is_verified : Bool
  pub verification_token : Option String
  pub verification_expires_at : Option ℕ
  pub deleted_at : Option ℕ
  pub tenant_id : Option String
  pub global_role_id : Option String
  pub two_factor_enabled : Bool
  pub two_factor_secret : Option String
  pub login_attempts : ℕ
  pub locked_until : Option ℕ

pub record Session : Type 0 where
  pub id : String
  pub user_id : String
  pub refresh_token : String
  pub expires_at : ℕ
  pub is_revoked : Bool

-- audit entries, by action
pub data Entry : Type 0 where
  user_login user_login_2fa refresh_token_reuse_detected : String → Entry
  user_login_oauth : String → String → Entry

pub record Tokens : Type 0 where
  pub access_token : String
  pub refresh_token : String

-- `crypto.randomUUID()` and the id of a new row
pub record Fresh : Type 0 where
  pub session_id : String
  pub token : String

-- the payload of a token
pub record Claims : Type 0 where
  pub sub : String
  pub tenant_id : Option String
  pub kind : Option String

pub record Services : Type 0 where
  -- `bcrypt.compare`, `bcrypt.hash`
  pub compare : String → String → Bool
  pub hash : String → String
  -- `jwtService.sign` at a time, for a lifetime; `jwtService.verify` at a time, null where it throws
  pub sign : ℕ → ℕ → Claims → String
  pub verify : ℕ → String → Option Claims
  pub crypto : Crypto
  -- `email.toLowerCase().trim()`
  pub normal_email : String → String

pub record AuthState (U S : Type 0) : Type 0 where
  pub users : U
  pub sessions : S
  pub audit : List Entry

module _ (services : Services) (users : Table User) (sessions : Table Session) where
  abbrev pub State : Type 0
  State = AuthState users.Store sessions.Store

  abbrev pub find_user : (User → Bool) → M State (Option User)
  find_user p s = (ok (users.find_first p s.users), s)

  abbrev pub update_user : String → (User → User) → M State User
  update_user id f s = elim (users.update id f s.users) [
    | none ↦ (throw record_missing, s)
    | some (u, store) ↦ (ok u, record s { users = store })
  ]

  abbrev pub find_session : (Session → Bool) → M State (Option Session)
  find_session p s = (ok (sessions.find_first p s.sessions), s)

  abbrev pub update_session : String → (Session → Session) → M State Session
  update_session id f s = elim (sessions.update id f s.sessions) [
    | none ↦ (throw record_missing, s)
    | some (u, store) ↦ (ok u, record s { sessions = store })
  ]

  abbrev pub revoked : Session → Session
  revoked s = record s { is_revoked = true }

  abbrev pub revoke_where : (Session → Bool) → M State (Unit {0})
  revoke_where p s = (ok tt, record s { sessions = sessions.update_many p revoked s.sessions })

  abbrev pub log : Entry → M State (Unit {0})
  log e s = (ok tt, record s { audit = s.audit ++ e ∷ [] })

  -- six hours
  abbrev pub access_ms : ℕ
  access_ms = 6 * 60 * 60 * 1000

  -- seven days
  abbrev pub session_ms : ℕ
  session_ms = 7 * 24 * 60 * 60 * 1000

  -- `TokenService.generateTokens` of src/auth/token.service.ts
  unfoldable pub generate_tokens : ℕ → Fresh → String → Option String → M State Tokens
  generate_tokens now fresh user_id tenant_id s = (
    ok (record {
      access_token =
          services.sign now access_ms
            (record { sub = user_id; tenant_id = tenant_id; kind = none });
      refresh_token = fresh.token;
    }),
    record s {
      sessions =
          sessions.create
            (record {
              id = fresh.session_id;
              user_id = user_id;
              refresh_token = fresh.token;
              expires_at = now + session_ms;
              is_revoked = false;
            })
            s.sessions;
    },
  )
