-- ===== src/Auth/TwoFactor/Checked.antt =====
-- What a login with a second factor has checked, and where the token of a pending one is accepted.
use live_ops_backend.Prelude.{
  ℕ, In, throw, ◌>>◌, and_then, require, unauthorized, ◌+◌, ◌<◌, String, ◌==◌, ◌≡◌, refl, Bool,
  true, false, Option, none, some, arith, sym, ap, ◌∙◌, ok, Outcome, if◌then◌else◌, Option-cases,
  Bool-cases, inl, inr, is_some,
}
use live_ops_backend.Prelude.Table.{Table}
use live_ops_backend.Auth.Store.{update_user, User, Session, Claims, Tokens, Fresh, Services, State}
use live_ops_backend.Auth.Login.{
  LoginReply, logged_in, two_factor_required, login, attempt, bad_credentials, pending, pending_ms,
  present, is_locked, complete_login,
}
use live_ops_backend.Auth.Login.Success.{login-Admitted}
use live_ops_backend.Auth.Totp.{generate_totp_token, windows, verify_totp_token}
use live_ops_backend.Auth.Totp.Windows.{verify_totp_token-In}
use live_ops_backend.Auth.TwoFactor.{validate, is_pending, bearer, login_with_two_factor}

module _ (services : Services) (users : Table User) (sessions : Table Session) where
  -- What a login with a second factor rests on.
  pub record Seconded (now : ℕ) (temp_token code : String) (s : State services users sessions)
      : Type 0 where
    pub claims : Claims
    pub user : User
    pub secret : String
    pub signed : services.verify now temp_token ≡ some claims
    pub is_second : is_pending claims.kind ≡ true
    pub found : users.find_first (λ u. u.id == claims.sub) s.users ≡ some user
    pub has_secret : user.two_factor_secret ≡ some secret
    -- the code of the secret for now, or for thirty seconds before or after
    pub right_code :
        (t : ℕ) × In t (windows services.crypto now)
        × (generate_totp_token services.crypto secret t ≡ ok (services.crypto.utf8 code))

  -- A login with a second factor succeeds only with a token of a pending second factor and a code
  -- of that user's secret for now, or for thirty seconds before or after.
  pub login_with_two_factor-Seconded :
      (now : ℕ) (fresh : Fresh) (temp_token code : String) (s s' : State services users sessions)
      (r : LoginReply)
      → login_with_two_factor services users sessions now fresh temp_token code s ≡ (ok r, s')
      → Seconded now temp_token code s
  unfolding login_with_two_factor
  login_with_two_factor-Seconded now fresh temp_token code s s' r h =
      elim (Option-cases (services.verify now temp_token)) [
        | inl bad ↦ absurd (ground (arith, h, bad))
        | inr (c, good) ↦ elim (Option-cases (users.find_first (λ u. u.id == c.sub) s.users)) [
          | inl missed ↦ absurd (ground (arith, h, good, missed))
          | inr (u, found) ↦ elim (Option-cases u.two_factor_secret) [
            | inl unset ↦ absurd (ground (arith, h, good, found, unset))
            | inr (secret, set) ↦ record {
              claims = c;
              user = u;
              secret = secret;
              signed = good;
              is_second = ground (arith, h, good, found, set);
              found = found;
              has_secret = set;
              right_code = verify_totp_token-In services.crypto now code secret (
                  right c u secret good found set
                    (verify_totp_token services.crypto now code secret) refl);
            }
          ]
        ]
      ]
    where
      right :
          (c : Claims) (u : User) (secret : String)
          → services.verify now temp_token ≡ some c
          → users.find_first (λ u. u.id == c.sub) s.users ≡ some u
          → u.two_factor_secret ≡ some secret
          → (o : Outcome Bool) → verify_totp_token services.crypto now code secret ≡ o
          → verify_totp_token services.crypto now code secret ≡ ok true
      right c u secret good found set (throw e) at =
          absurd (ground (arith, h, good, found, set, at))
      right c u secret good found set (ok true) at = at
      right c u secret good found set (ok false) at =
          absurd (ground (arith, h, good, found, set, at))

  login_reply :
      (now : ℕ) (fresh : Fresh) (email password : String) (s : State services users sessions)
      (u x : User) (store : users.Store)
      → users.find_first (λ row. row.email == services.normal_email email) s.users ≡ some u
      → u.deleted_at ≡ none
      → is_locked now u.locked_until ≡ false
      → services.compare password u.password ≡ true
      → u.is_verified ≡ true
      → users.update u.id (λ row. record row { login_attempts = 0; locked_until = none }) s.users
        ≡ some (x, store)
      → (login services users sessions now fresh email password s).0 ≡ (
          if u.two_factor_enabled
          then ok (two_factor_required (services.sign now pending_ms (pending u.id)))
          else (complete_login services users sessions now fresh u (record s { users = store })).0)
  unfolding login
  login_reply now fresh email password s u x store found kept free matches verified there =
      let here : present (some u) ≡ some u =
        ap (λ (o : Option ℕ). if is_some o then none else some u) kept in
      let go : Option User → Outcome LoginReply = λ o.
        (and_then (require o (unauthorized bad_credentials) s)
          (attempt services users sessions now fresh password)).0 in
      ap (λ o. go (present o)) found
      ∙ ap go here
      ∙ rw (free, matches, verified, ◌>>◌, update_user, there)
          (elim (Bool-cases u.two_factor_enabled) [ inl on ↦ rw on refl | inr off ↦ rw off refl ])

  pending_token :
      (now : ℕ) (fresh : Fresh) (email password token : String)
      (s s' : State services users sessions) (u : User)
      → login services users sessions now fresh email password s
        ≡ (ok (two_factor_required token), s')
      → users.find_first (λ row. row.email == services.normal_email email) s.users ≡ some u
      → token ≡ services.sign now pending_ms (pending u.id)
  unfolding login
  pending_token now fresh email password token s s' u h found =
      let reset : User → User = λ row. record row { login_attempts = 0; locked_until = none } in
      let w = login-Admitted services users sessions now fresh email password s s' _ h in
      let same : w.user ≡ u = cc (w.found, found) in
      let kept : u.deleted_at ≡ none = rw (← same) w.not_deleted in
      let free : is_locked now u.locked_until ≡ false = rw (← same) w.not_locked in
      let matches : services.compare password u.password ≡ true = rw (← same) w.matches in
      let verified : u.is_verified ≡ true = rw (← same) w.verified in
      elim (Option-cases (users.update u.id reset s.users)) [
        | inl gone ↦ absurd (ground (arith, h, found, kept, free, matches, verified, gone))
        | inr (x, there) ↦
            let reply =
              sym (ap (λ (o : Outcome LoginReply × State services users sessions). o.0) h)
              ∙ login_reply now fresh email password s u x.0 x.1 found kept free matches verified
                  there in
            elim (Bool-cases u.two_factor_enabled) [
              | inl on ↦ same_token (
                  reply
                  ∙ ap
                      (λ (b : Bool).
                        if b
                        then ok (two_factor_required (services.sign now pending_ms (pending u.id)))
                        else (complete_login services users sessions now fresh u
                            (record s { users = x.1 })).0)
                      on)
              | inr off ↦ other (rw off at reply)
            ]
      ]
    where
      same_token :
          {a b : String} → Outcome.ok (two_factor_required a) ≡ ok (two_factor_required b) → a ≡ b
      same_token e = cc

      other :
          {A : Type 0} {a : String} {b : Option User} {c : Tokens}
          → Outcome.ok (two_factor_required a) ≡ ok (logged_in b c)
          → A
      other e = cc

  -- Where a login asks for a second factor, and its token is verified as it was signed until it
  -- expires, the token alone is accepted as a bearer token of that account.
  pub pending_is_bearer :
      (now later : ℕ) (fresh : Fresh) (email password token : String)
      (s s' : State services users sessions) (u : User)
      → login services users sessions now fresh email password s
        ≡ (ok (two_factor_required token), s')
      → users.find_first (λ row. row.email == services.normal_email email) s.users ≡ some u
      → later < now + pending_ms
      → (later < now + pending_ms
          → services.verify later (services.sign now pending_ms (pending u.id))
            ≡ some (pending u.id))
      → bearer services users sessions later token
        ≡ some (record { user_id = u.id; tenant_id = none })
  unfolding bearer validate
  pending_is_bearer now later fresh email password token s s' u h found soon verified =
      ap (bearer services users sessions later)
        (pending_token now fresh email password token s s' u h found)
      ∙ rw (bearer, verified soon) refl
