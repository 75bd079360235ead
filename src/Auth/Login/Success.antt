-- ===== src/Auth/Login/Success.antt =====
-- What a login that succeeds has checked, and what it wrote.
use live_ops_backend.Prelude.{
  ℕ, ◌+◌, String, ◌==◌, ◌≡◌, true, false, [], ◌∷◌, ◌++◌, none, some, arith, ok, if◌then◌else◌,
  Option-cases, Bool-cases, inl, inr,
}
use live_ops_backend.Prelude.Table.{Table}
use live_ops_backend.Auth.Store.{User, Session, Fresh, Services, State, session_ms}
use live_ops_backend.Auth.Login.{LoginReply, is_locked, login}

module _ (services : Services) (users : Table User) (sessions : Table Session) where
  abbrev pub new_session : ℕ → Fresh → User → Session
  new_session now fresh u = record {
    id = fresh.session_id;
    user_id = u.id;
    refresh_token = fresh.token;
    expires_at = now + session_ms services users sessions;
    is_revoked = false;
  }

  -- The account behind a login that succeeded from `s` to `s'`.
  pub record Admitted (now : ℕ) (fresh : Fresh) (email password : String)
      (s s' : State services users sessions) : Type 0 where
    pub user : User
    pub found :
        users.find_first (λ row. row.email == services.normal_email email) s.users ≡ some user
    pub not_deleted : user.deleted_at ≡ none
    pub not_locked : is_locked now user.locked_until ≡ false
    pub matches : services.compare password user.password ≡ true
    pub verified : user.is_verified ≡ true
    pub written : sessions.rows s'.sessions ≡ (
        if user.two_factor_enabled
        then sessions.rows s.sessions
        else sessions.rows s.sessions ++ new_session now fresh user ∷ [])

  -- A login succeeds only for an account that is there, not deleted, not locked, with its password
  -- and a verified address; it opens one session, or none where a second factor is pending.
  pub login-Admitted :
      (now : ℕ) (fresh : Fresh) (email password : String) (s s' : State services users sessions)
      (r : LoginReply)
      → login services users sessions now fresh email password s ≡ (ok r, s')
      → Admitted now fresh email password s s'
  unfolding login
  login-Admitted now fresh email password s s' r h =
      let reset : User → User = λ row. record row { login_attempts = 0; locked_until = none } in
      let wrote : (u : User)
          → users.find_first (λ row. row.email == services.normal_email email) s.users ≡ some u
          → sessions.rows s'.sessions ≡ (
              if u.two_factor_enabled
              then sessions.rows s.sessions
              else sessions.rows s.sessions ++ new_session now fresh u ∷ []) =
        λ u found. elim (Option-cases (users.update u.id reset s.users)) [
          | inl none_there ↦ ground (arith, found, none_there)
          | inr (x, there) ↦ elim (Bool-cases u.two_factor_enabled) [
            | inl on ↦ ground (arith, found, there, on)
            | inr off ↦ ground (
              arith,
              found,
              there,
              off,
              sessions.rows-create (new_session now fresh u) s.sessions,
            )
          ]
        ] in
      elim (Option-cases
        (users.find_first (λ row. row.email == services.normal_email email) s.users)) [
          | inl missed ↦ absurd (cc (rw (missed, login) at h))
          | inr (u, found) ↦ record {
            user = u;
            found = found;
            not_deleted = ground arith;
            not_locked = ground arith;
            matches = ground arith;
            verified = ground arith;
            written = wrote u found;
          }
        ]
