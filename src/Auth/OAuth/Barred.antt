-- ===== src/Auth/OAuth/Barred.antt =====
-- Users that a login with a password refuses or asks for more, at a login through a provider.
use live_ops_backend.Prelude.{
  ℕ, ◌+◌, String, ◌==◌, ◌≡◌, Bool, true, not, ◌||◌, [], ◌∷◌, ◌++◌, Option, none, some, arith, ap,
  is_some, Option-cases, Bool-cases, inl, inr, subst, sym,
}
use live_ops_backend.Prelude.Table.{Table}
use live_ops_backend.Auth.Store.{User, Session, Fresh, Services, State, generate_tokens}
use live_ops_backend.Auth.Login.{login, is_locked, failed}
use live_ops_backend.Auth.Register.{Tenant}
use live_ops_backend.Auth.OAuth.{
  OAuthProfile, OAuthAccount, FreshRows, is_account_of, LoggingIn, handle_oauth_login,
}
use live_ops_backend.Auth.OAuth.Linked.{session_of}

-- deleted, locked, not verified, or with a second factor
abbrev pub is_barred : ℕ → User → Bool
is_barred now u =
    is_some u.deleted_at
    || (is_locked now u.locked_until || (not u.is_verified || u.two_factor_enabled))

module _ (services : Services) (users : Table User) (sessions : Table Session) where
  login-barred :
      (now : ℕ) (fresh : Fresh) (email password : String) (s : State services users sessions)
      (u : User)
      → users.find_first (λ row. row.email == services.normal_email email) s.users ≡ some u
      → is_barred now u ≡ true
      → (login services users sessions now fresh email password s).1.sessions ≡ s.sessions
  unfolding login
  login-barred now fresh email password s u found barred = elim (Option-cases u.deleted_at) [
    | inr (at, gone) ↦ ground (arith, found, gone)
    | inl there ↦ elim (Bool-cases (is_locked now u.locked_until)) [
      | inl locked ↦ ground (arith, found, there, locked)
      | inr open_ ↦ elim (Bool-cases (services.compare password u.password)) [
        | inl right ↦ elim (Bool-cases u.is_verified) [
          | inr unverified ↦ ground (arith, found, there, open_, right, unverified)
          | inl verified ↦
              let second : u.two_factor_enabled ≡ true =
                ground (arith, barred, there, open_, verified) in
              elim (Option-cases (users.update u.id reset s.users)) [
                | inl none_there ↦
                    ground (arith, found, there, open_, right, verified, second, none_there)
                | inr (x, done) ↦ ground (arith, found, there, open_, right, verified, second, done)
              ]
        ]
        | inr wrong ↦
            elim (Option-cases (users.update u.id (failed now u (u.login_attempts + 1)) s.users)) [
              | inl none_there ↦ ground (arith, found, there, open_, wrong, none_there)
              | inr (x, done) ↦ ground (arith, found, there, open_, wrong, done)
            ]
      ]
    ]
  ]
    where
      reset : User → User
      reset row = record row { login_attempts = 0; locked_until = none }

module _ (services : Services) (users : Table User) (sessions : Table Session)
    (accounts : Table OAuthAccount) (tenants : Table Tenant) (find_role : String → Option String)
    (workspace_of upper : String → String) where
  -- A user who is deleted, locked, not verified or has a second factor, and a profile with the user's
  -- address that no account is linked to: a login with the address opens no session, whatever the
  -- password, and a login with the profile opens one of the user.
  pub handle_oauth_login-login :
      (now : ℕ) (fresh : FreshRows) (p : OAuthProfile) (email password : String)
      (s : LoggingIn services users sessions accounts tenants find_role workspace_of upper)
      (u : User)
      → services.normal_email email ≡ p.email
      → users.find_first (λ x. x.email == p.email) s.auth.users ≡ some u
      → is_barred now u ≡ true
      → accounts.find_first (is_account_of p) s.accounts ≡ none
      → let by_password =
          (login services users sessions now fresh.session email password s.auth).1 in
        let by_provider =
          (handle_oauth_login services users sessions accounts tenants find_role workspace_of upper
            now fresh p s).1 in
        (sessions.rows by_password.sessions ≡ sessions.rows s.auth.sessions)
        × (sessions.rows by_provider.auth.sessions
            ≡ sessions.rows s.auth.sessions
              ++ session_of services users sessions now fresh.session u.id ∷ [])
  unfolding handle_oauth_login generate_tokens
  handle_oauth_login-login now fresh p email password s u same_address found barred unlinked = (
    ap sessions.rows (
        login-barred services users sessions now fresh.session email password s.auth u
          (subst (λ e. users.find_first (λ x. x.email == e) s.auth.users ≡ some u)
            (sym same_address) found)
          barred),
    rw (unlinked, found) (sessions.rows-create _ s.auth.sessions),
  )
