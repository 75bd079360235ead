-- ===== src/Auth/Recovery/Once.antt =====
-- A recovery token works once; what a verified address rests on.
use live_ops_backend.Prelude.{
  ℕ, String, ◌==◌, ◌≡◌, refl, Bool, false, not, List, [], ◌∷◌, none, some, arith, ap, ◌∙◌, ok,
  throw, Option-cases, Bool-cases, inl, inr, Exception, find, filter, update_where, bad_request,
}
use live_ops_backend.Prelude.Table.{Table, update-rows, delete-rows}
use live_ops_backend.Auth.Store.{User, Services}
use live_ops_backend.Auth.Recovery.{
  PasswordReset, Recovery, has_expired, has_code, verified, with_password, reset_password,
  verify_email,
}

module _ (services : Services) (users : Table User) (resets : Table PasswordReset) where
  find-filter-none :
      (p q : PasswordReset → Bool) (xs : List PasswordReset)
      → ((x : PasswordReset) → q x ≡ not (p x))
      → find p (filter q xs) ≡ none
  find-filter-none p q [] same = refl
  find-filter-none p q (x ∷ xs) same = elim (Bool-cases (p x)) [
    | inl e ↦ rw (same x, e) (find-filter-none p q xs same)
    | inr e ↦ rw (same x, e, e) (find-filter-none p q xs same)
  ]

  -- What a recovery that succeeds rests on and writes.
  pub record Recovered (now : ℕ) (token password : String) (s s' : Recovery services users resets)
      : Type 0 where
    pub reset : PasswordReset
    pub user : User
    pub asked : resets.find_first (λ r. r.token == token) s.resets ≡ some reset
    pub owner : users.find_first (λ u. u.email == reset.email) s.users ≡ some user
    pub written :
        users.rows s'.users
        ≡ update_where
            (λ u. users.id_of u == user.id)
            (with_password services users resets password)
            (users.rows s.users)
    pub used :
        resets.rows s'.resets ≡ filter (λ r. not (resets.id_of r == token)) (resets.rows s.resets)

  -- A recovery that succeeds had a token that was asked for; it sets the password of the account of
  -- that address, unlocks it, and removes the token.
  pub reset_password-Recovered :
      (now : ℕ) (token password confirm : String) (s s' : Recovery services users resets)
      → reset_password services users resets now token password confirm s ≡ (ok tt, s')
      → Recovered now token password s s'
  unfolding reset_password
  reset_password-Recovered now token password confirm s s' h =
      elim (Option-cases (resets.find_first (λ r. r.token == token) s.resets)) [
        | inl missed ↦ absurd (ground (arith, h, missed))
        | inr (r, asked) ↦
            elim (Option-cases (users.find_first (λ u. u.email == r.email) s.users)) [
              | inl unknown ↦ absurd (ground (arith, h, asked, unknown))
              | inr (u, owner) ↦
                  elim (Option-cases
                    (users.update u.id (with_password services users resets password) s.users)) [
                      | inl gone ↦ absurd (ground (arith, h, asked, owner, gone))
                      | inr ((v, store), wrote) ↦
                          elim (Option-cases (resets.delete token s.resets)) [
                            | inl lost ↦ absurd (ground (arith, h, asked, owner, wrote, lost))
                            | inr (left, deleted) ↦
                                let (at_users, at_resets) =
                                  both r u v store left asked owner wrote deleted in
                                record {
                                  reset = r;
                                  user = u;
                                  asked = asked;
                                  owner = owner;
                                  written =
                                      ap users.rows at_users
                                      ∙ update-rows users u.id _ s.users {r = v} {s' = store} wrote;
                                  used =
                                      ap resets.rows at_resets
                                      ∙ delete-rows resets token s.resets deleted;
                                }
                          ]
                    ]
            ]
      ]
    where
      both :
          (r : PasswordReset) (u v : User) (store : users.Store) (left : resets.Store)
          → resets.find_first (λ r. r.token == token) s.resets ≡ some r
          → users.find_first (λ u. u.email == r.email) s.users ≡ some u
          → users.update u.id (with_password services users resets password) s.users
            ≡ some (v, store)
          → resets.delete token s.resets ≡ some left
          → (s'.users ≡ store) × (s'.resets ≡ left)
      both r u v store left asked owner wrote deleted =
          ground (arith, h, asked, owner, wrote, deleted)

  -- A recovery token that was used: it is refused whatever the passwords, and nothing changes.
  pub reset_password-twice :
      ((r : PasswordReset) → resets.id_of r ≡ r.token)
      → (now later : ℕ) (token password confirm again again' : String)
        (s s' : Recovery services users resets)
      → reset_password services users resets now token password confirm s ≡ (ok tt, s')
      → (e : Exception) × (reset_password services users resets later token again again' s'
          ≡ (throw e, s'))
  unfolding reset_password
  reset_password-twice keyed now later token password confirm again again' s s' h =
      let done = reset_password-Recovered now token password confirm s s' h in
      let gone : resets.find_first (λ r. r.token == token) s'.resets ≡ none =
        resets.find_first-rows (λ r. r.token == token) s'.resets
        ∙ ap (find (λ r. r.token == token)) done.used
        ∙ find-filter-none (λ r. r.token == token) (λ r. not (resets.id_of r == token))
            (resets.rows s.resets) (λ r. ap (λ i. not (i == token)) (keyed r)) in
      elim (Bool-cases (again == again')) [
        | inl same ↦ (
          bad_request "El token de recuperación es inválido o ha expirado",
          ground (arith, gone, same),
        )
        | inr other ↦ (bad_request "Las contraseñas no coinciden", ground (arith, other))
      ]

  -- What a verification that succeeds rests on and writes.
  pub record Verified (now : ℕ) (token : String) (s s' : Recovery services users resets)
      : Type 0 where
    pub user : User
    pub found : users.find_first (has_code token) s.users ≡ some user
    pub in_time : has_expired now user.verification_expires_at ≡ false
    pub written :
        users.rows s'.users
        ≡ update_where (λ u. users.id_of u == user.id) verified (users.rows s.users)

  -- A verification that succeeds had a code that an account holds and that has not expired, and
  -- verifies that account.
  pub verify_email-Verified :
      (now : ℕ) (token : String) (s s' : Recovery services users resets)
      → verify_email services users resets now token s ≡ (ok tt, s')
      → Verified now token s s'
  unfolding verify_email
  verify_email-Verified now token s s' h =
      elim (Option-cases (users.find_first (has_code token) s.users)) [
        | inl missed ↦ absurd (ground (arith, h, missed))
        | inr (u, found) ↦ elim (Option-cases (users.update u.id verified s.users)) [
          | inl gone ↦ absurd (ground (arith, h, found, gone))
          | inr ((v, store), wrote) ↦
              let same : s'.users ≡ store = ground (arith, h, found, wrote) in
              record {
                user = u;
                found = found;
                in_time = ground (arith, h, found);
                written =
                    ap users.rows same
                    ∙ update-rows users u.id verified s.users {r = v} {s' = store} wrote;
              }
        ]
      ]
