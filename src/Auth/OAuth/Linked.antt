-- ===== src/Auth/OAuth/Linked.antt =====
-- Whom a login through a provider lets in.
use live_ops_backend.Prelude.{
  ℕ, ◌+◌, String, ◌==◌, ◌≡◌, refl, true, false, [], ◌∷◌, ◌++◌, Option, none, some, find,
  find-appended, ap, sym, ◌∙◌, eq_refl, Option-cases, inl, inr,
}
use live_ops_backend.Prelude.Table.{Table}
use live_ops_backend.Auth.Store.{User, Session, Fresh, Services, generate_tokens, session_ms}
use live_ops_backend.Auth.Register.{Tenant}
use live_ops_backend.Auth.OAuth.{
  OAuthProfile, OAuthAccount, FreshRows, is_account_of, LoggingIn, handle_oauth_login,
}

module _ (services : Services) (users : Table User) (sessions : Table Session) where
  -- the session that a login opens
  abbrev pub session_of : ℕ → Fresh → String → Session
  session_of now fresh user_id = record {
    id = fresh.session_id;
    user_id = user_id;
    refresh_token = fresh.token;
    expires_at = now + session_ms services users sessions;
    is_revoked = false;
  }

module _ (services : Services) (users : Table User) (sessions : Table Session)
    (accounts : Table OAuthAccount) (tenants : Table Tenant) (find_role : String → Option String)
    (workspace_of upper : String → String) (now : ℕ) (fresh : FreshRows) (p : OAuthProfile)
    (s : LoggingIn services users sessions accounts tenants find_role workspace_of upper) where
  -- The profile is linked to a user, who got a session.
  record LinkedTo (user_id : String)
      (t : LoggingIn services users sessions accounts tenants find_role workspace_of upper)
      : Type 0 where
    account : OAuthAccount
    found : accounts.find_first (is_account_of p) t.accounts ≡ some account
    same_user : account.user_id ≡ user_id
    opened :
        sessions.rows t.auth.sessions
        ≡ sessions.rows s.auth.sessions
          ++ session_of services users sessions now fresh.session user_id ∷ []

  abbrev after : LoggingIn services users sessions accounts tenants find_role workspace_of upper
  after =
      (handle_oauth_login services users sessions accounts tenants find_role workspace_of upper now
        fresh p s).1

  abbrev new_account : String → OAuthAccount
  new_account user_id = record {
    id = fresh.account_id;
    user_id = user_id;
    provider = p.provider;
    provider_id = p.provider_id;
  }

  find_first-create :
      accounts.find_first (is_account_of p) s.accounts ≡ none
      → (user_id : String)
      → accounts.find_first (is_account_of p) (accounts.create (new_account user_id) s.accounts)
        ≡ some (new_account user_id)
  find_first-create unlinked user_id =
      let before : find (is_account_of p) (accounts.rows s.accounts) ≡ none =
        sym (accounts.find_first-rows (is_account_of p) s.accounts) ∙ unlinked in
      let is_it : is_account_of p (new_account user_id) ≡ true =
        rw (eq_refl p.provider, eq_refl p.provider_id) refl in
      rw (accounts.find_first-rows, accounts.rows-create)
        (find-appended (is_account_of p) (accounts.rows s.accounts) (new_account user_id) before
          is_it)

  handle_oauth_login-LinkedTo : (user_id : String) × LinkedTo user_id after
  unfolding handle_oauth_login generate_tokens
  handle_oauth_login-LinkedTo =
      elim (Option-cases (accounts.find_first (is_account_of p) s.accounts)) [
        | inr (a, linked) ↦ (
          a.user_id,
          record {
            account = a;
            found = rw (after, linked) linked;
            same_user = refl;
            opened = rw (after, linked) (sessions.rows-create _ s.auth.sessions);
          },
        )
        | inl unlinked ↦
            elim (Option-cases (users.find_first (λ x. x.email == p.email) s.auth.users)) [
              | inr (u, known) ↦ (
                u.id,
                record {
                  account = new_account u.id;
                  found = rw (after, unlinked, known) (find_first-create unlinked u.id);
                  same_user = refl;
                  opened = rw (after, unlinked, known) (sessions.rows-create _ s.auth.sessions);
                },
              )
              | inl unknown ↦ (
                fresh.user_id,
                record {
                  account = new_account fresh.user_id;
                  found = rw (after, unlinked, unknown) (find_first-create unlinked fresh.user_id);
                  same_user = refl;
                  opened = rw (after, unlinked, unknown) (sessions.rows-create _ s.auth.sessions);
                },
              )
            ]
      ]

  -- A login with a profile that is linked only adds a session and an audit entry.
  handle_oauth_login-again :
      (a : OAuthAccount)
      → accounts.find_first (is_account_of p) s.accounts ≡ some a
      → (after.accounts ≡ s.accounts)
        × (after.tenants ≡ s.tenants)
        × (after.auth.users ≡ s.auth.users)
        × (sessions.rows after.auth.sessions
            ≡ sessions.rows s.auth.sessions
              ++ session_of services users sessions now fresh.session a.user_id ∷ [])
  unfolding handle_oauth_login generate_tokens
  handle_oauth_login-again a linked = (
    rw (after, linked) refl,
    rw (after, linked) refl,
    rw (after, linked) refl,
    rw (after, linked) (sessions.rows-create _ s.auth.sessions),
  )

module _ (services : Services) (users : Table User) (sessions : Table Session)
    (accounts : Table OAuthAccount) (tenants : Table Tenant) (find_role : String → Option String)
    (workspace_of upper : String → String) where
  -- Two logins with one profile, whatever the state before: both open a session of the same user, and
  -- the second adds no user, account or tenant.
  pub handle_oauth_login-twice :
      (now later : ℕ) (fresh next : FreshRows) (p : OAuthProfile)
      (s : LoggingIn services users sessions accounts tenants find_role workspace_of upper)
      → let login =
          handle_oauth_login services users sessions accounts tenants find_role workspace_of
            upper in
        let s' = (login now fresh p s).1 in
        let t = (login later next p s').1 in
        (user_id : String) × (sessions.rows s'.auth.sessions
          ≡ sessions.rows s.auth.sessions
            ++ session_of services users sessions now fresh.session user_id ∷ [])
        × (sessions.rows t.auth.sessions
            ≡ sessions.rows s'.auth.sessions
              ++ session_of services users sessions later next.session user_id ∷ [])
        × (t.auth.users ≡ s'.auth.users)
        × (t.accounts ≡ s'.accounts)
        × (t.tenants ≡ s'.tenants)
  handle_oauth_login-twice now later fresh next p s =
      let (user_id, l) =
        handle_oauth_login-LinkedTo services users sessions accounts tenants find_role workspace_of
          upper now fresh p s in
      let s' =
        after services users sessions accounts tenants find_role workspace_of upper now fresh p s in
      let (same_accounts, same_tenants, same_users, rows) =
        handle_oauth_login-again services users sessions accounts tenants find_role workspace_of
          upper later next p s' l.account l.found in
      (
        user_id,
        l.opened,
        rows
            ∙ ap
                (λ id.
                  sessions.rows s'.auth.sessions
                  ++ session_of services users sessions later next.session id ∷ [])
                l.same_user,
        same_users,
        same_accounts,
        same_tenants,
      )
