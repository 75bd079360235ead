-- ===== src/Auth/Login/Lockout.antt =====
-- Five wrong passwords lock an account, whatever password comes next.
use live_ops_backend.Prelude.{
  ℕ, suc, ◌+◌, ◌≤◌, ◌<◌, String, ◌==◌, ◌≡◌, refl, Bool, true, false, List, [], ◌∷◌, Option, none,
  some, arith, sym, ap, ◌∙◌, find, find-satisfies, find-update_where, In→find, All, length, throw,
  locked_out, eq_refl, subst, if◌then◌else◌,
}
use live_ops_backend.Prelude.Table.{Table, update-found}
use live_ops_backend.Auth.Store.{User, Session, Fresh, Services, State}
use live_ops_backend.Auth.Login.{lockout_ms, is_locked, minutes_left, failed, lock_after, login}

module _ (services : Services) (users : Table User) (sessions : Table Session)
    (keyed : (u : User) → users.id_of u ≡ u.id) (email : String) where
  -- the user that a login with this email finds
  abbrev pub account : State services users sessions → Option User
  account s = users.find_first (λ row. row.email == services.normal_email email) s.users

  account_row :
      (s : State services users sessions) (u : User)
      → account s ≡ some u
      → (r : User) × (find (λ row. users.id_of row == u.id) (users.rows s.users) ≡ some r)
  account_row s u found =
      let (m, good) =
        find-satisfies (λ (row : User). row.email == services.normal_email email)
          (users.rows s.users) (sym (users.find_first-rows _ _) ∙ found) in
      In→find (λ row. users.id_of row == u.id) (users.rows s.users) u m (rw keyed (eq_refl u.id))

  -- The account after a wrong password: one more failed attempt, and a lock from the fifth on.
  pub account-wrong :
      (now : ℕ) (fresh : Fresh) (password : String) (s : State services users sessions) (u : User)
      → account s ≡ some u
      → u.deleted_at ≡ none
      → is_locked now u.locked_until ≡ false
      → services.compare password u.password ≡ false
      → account (login services users sessions now fresh email password s).1
        ≡ some (failed now u (u.login_attempts + 1) u)
  unfolding login
  account-wrong now fresh password s u found kept free wrong =
      let f = failed now u (u.login_attempts + 1) in
      let (r, there) = account_row s u found in
      let (store, done, wrote) = update-found users u.id f s.users there in
      let same : (login services users sessions now fresh email password s).1.users ≡ store =
        ground arith in
      ap (λ st. users.find_first (λ row. row.email == services.normal_email email) st) same
      ∙ users.find_first-rows _ store
      ∙ ap (find (λ row. row.email == services.normal_email email)) wrote
      ∙ find-update_where (λ row. row.email == services.normal_email email)
          (λ row. users.id_of row == u.id) f (users.rows s.users) (λ x. refl)
          (sym (users.find_first-rows _ _) ∙ found)
      ∙ ap (λ (b : Bool). some (if b then f u else u))
          (ap (λ i. i == u.id) (keyed u) ∙ eq_refl u.id)

  -- A locked account refuses every password and nothing changes.
  pub login-locked :
      (now : ℕ) (fresh : Fresh) (password : String) (s : State services users sessions) (u : User)
      → account s ≡ some u
      → u.deleted_at ≡ none
      → is_locked now u.locked_until ≡ true
      → login services users sessions now fresh email password s
        ≡ (throw (locked_out (minutes_left now u.locked_until)), s)
  unfolding login
  login-locked now fresh password s u found kept locked = ground arith

  -- logins one after another: time and password
  abbrev pub logins :
      Fresh → List (ℕ × String) → State services users sessions → State services users sessions
  logins fresh [] s = s
  logins fresh ((now, password) ∷ rest) s =
      logins fresh rest (login services users sessions now fresh email password s).1

  abbrev pub AllWrong : User → List (ℕ × String) → Type 0
  AllWrong u tries = All (λ (t : ℕ × String). services.compare t.1 u.password ≡ false) tries

  -- the account of `u` after k wrong passwords, not locked
  pub record Warned (s : State services users sessions) (u : User) (attempts : ℕ) : Type 0 where
    pub row : User
    pub found : account s ≡ some row
    pub kept : row.deleted_at ≡ none
    pub free : row.locked_until ≡ none
    pub same_password : row.password ≡ u.password
    pub counted : row.login_attempts ≡ attempts

  warn :
      (fresh : Fresh) (now : ℕ) (password : String) (s : State services users sessions) (u : User)
      (k : ℕ)
      → Warned s u k
      → services.compare password u.password ≡ false
      → suc k ≤ 4
      → Warned (login services users sessions now fresh email password s).1 u (suc k)
  warn fresh now password s u k w wrong few = record {
    row = failed now w.row (w.row.login_attempts + 1) w.row;
    found =
        account-wrong now fresh password s w.row w.found w.kept (rw w.free)
          (rw w.same_password wrong);
    kept = w.kept;
    free = ground (arith, w.counted);
    same_password = w.same_password;
    counted = omega (arith, w.counted);
  }

  warn_all :
      (fresh : Fresh) (tries : List (ℕ × String)) (s : State services users sessions) (u : User)
      (k : ℕ)
      → Warned s u k
      → AllWrong u tries
      → k + length tries ≤ 4
      → Warned (logins fresh tries s) u (k + length tries)
  warn_all fresh [] s u k w wrong few = subst (Warned s u) (omega arith) w
  warn_all fresh ((now, password) ∷ rest) s u k w wrong few = subst (Warned _ u) (omega arith) (
      warn_all fresh rest _ u (suc k) (warn fresh now password s u k w wrong.0 (omega arith))
        wrong.1 (omega arith))

  -- From an account that is not deleted, has no failed attempts and no lock: after five wrong
  -- passwords every login within fifteen minutes of the last is refused and changes nothing, with
  -- the right password too.
  pub lockout_after_five :
      (fresh : Fresh) (tries : List (ℕ × String)) (now : ℕ) (password : String)
      (s : State services users sessions) (u : User)
      → account s ≡ some u
      → u.deleted_at ≡ none
      → u.locked_until ≡ none
      → u.login_attempts ≡ 0
      → length tries ≡ 4
      → AllWrong u tries
      → services.compare password u.password ≡ false
      → (later : ℕ) (any_password : String) → later < now + lockout_ms
      → let s' =
          (login services users sessions now fresh email password (logins fresh tries s)).1 in
        login services users sessions later fresh email any_password s'
        ≡ (throw (locked_out (minutes_left later (some (now + lockout_ms)))), s')
  lockout_after_five fresh tries now password s u found kept free none_yet four wrong wrong' later
        any_password soon =
      let start : Warned s u 0 = record {
        row = u;
        found = found;
        kept = kept;
        free = free;
        same_password = refl;
        counted = none_yet;
      } in
      let w = warn_all fresh tries s u 0 start wrong (omega arith) in
      let locked : lock_after now (w.row.login_attempts + 1) ≡ some (now + lockout_ms) =
        ground (arith, w.counted) in
      let after =
        account-wrong now fresh password (logins fresh tries s) w.row w.found w.kept (rw w.free)
          (rw w.same_password wrong') in
      login-locked later fresh any_password _ (failed now w.row (w.row.login_attempts + 1) w.row)
        after w.kept (rw locked (ground arith))
      ∙ ap
          (λ l. (
            throw (locked_out (minutes_left later l)),
            (login services users sessions now fresh email password (logins fresh tries s)).1,
          ))
          locked
