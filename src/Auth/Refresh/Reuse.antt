-- ===== src/Auth/Refresh/Reuse.antt =====
-- Token rotation, and what the second use of a refresh token does.
use live_ops_backend.Prelude.{
  ℕ, ◌+◌, ◌≤◌, String, ◌==◌, ◌≡◌, refl, Bool, true, false, List, [], ◌∷◌, ◌++◌, Option, some, arith,
  sym, ◌∙◌, ap, ok, throw, if◌then◌else◌, Option-cases, Bool-cases, inl, inr, find, update_where,
  All, unauthorized, find-update_where, eq_refl, subst,
}
use live_ops_backend.Prelude.Table.{Table, update-rows}
use live_ops_backend.Auth.Store.{User, Session, Tokens, Fresh, Services, State, revoked, session_ms}
use live_ops_backend.Auth.Refresh.{is_open_of, refresh}

module _ (services : Services) (users : Table User) (sessions : Table Session)
    (keyed : (x : Session) → sessions.id_of x ≡ x.id) where
  abbrev pub session_of : String → State services users sessions → Option Session
  session_of token s = sessions.find_first (λ x. x.refresh_token == token) s.sessions

  -- Every session of the user is revoked.
  abbrev pub AllRevoked : String → List Session → Type 0
  AllRevoked user_id xs =
      All (λ (x : Session). (x.user_id == user_id) ≡ true → x.is_revoked ≡ true) xs

  revoke_open :
      (user_id : String) (xs : List Session)
      → AllRevoked user_id (
          update_where
            (is_open_of services users sessions user_id)
            (revoked services users sessions)
            xs)
  revoke_open user_id [] = tt
  revoke_open user_id (x ∷ xs) = (λ e. ground arith, revoke_open user_id xs)

  -- A revoked token that has not expired: the request is refused and every session of its user is
  -- revoked.
  pub refresh-reused :
      (now : ℕ) (fresh : Fresh) (token : String) (s : State services users sessions) (x : Session)
      → (token == "") ≡ false
      → session_of token s ≡ some x
      → now ≤ x.expires_at
      → x.is_revoked ≡ true
      → let (reply, s') = refresh services users sessions now fresh token s in
        (reply
          ≡ throw
              (unauthorized "Sesión inválida. Por seguridad, cierra sesión y vuelve a iniciar."))
        × AllRevoked x.user_id (sessions.rows s'.sessions)
        × (s'.users ≡ s.users)
  unfolding refresh
  refresh-reused now fresh token s x some_token found live used =
      let wrote : (refresh services users sessions now fresh token s).1.sessions
          ≡ sessions.update_many (is_open_of services users sessions x.user_id)
              (revoked services users sessions) s.sessions =
        ground arith in
      (
        ground arith,
        subst (AllRevoked x.user_id)
            (sym (ap sessions.rows wrote ∙ sessions.rows-update_many _ _ _))
            (revoke_open x.user_id (sessions.rows s.sessions)),
        ground arith,
      )

  find-append_first :
      (p : Session → Bool) (xs ys : List Session) {x : Session}
      → find p xs ≡ some x
      → find p (xs ++ ys) ≡ some x
  find-append_first p [] ys found = cc
  find-append_first p (x ∷ xs) ys {x = a} found = elim (Bool-cases (p x)) [
    | inl e ↦ ground (arith, found, e)
    | inr e ↦ rw e (find-append_first p xs ys (ground (arith, found, e)))
  ]

  abbrev pub opened : ℕ → Fresh → Session → Session
  opened now fresh x = record {
    id = fresh.session_id;
    user_id = x.user_id;
    refresh_token = fresh.token;
    expires_at = now + session_ms services users sessions;
    is_revoked = false;
  }

  -- The session after it was used: it is still found by its token, and is revoked.
  pub refresh-used :
      (now : ℕ) (fresh : Fresh) (token : String) (s s' : State services users sessions) (t : Tokens)
      (x : Session)
      → refresh services users sessions now fresh token s ≡ (ok t, s')
      → session_of token s ≡ some x
      → session_of token s' ≡ some (revoked services users sessions x)
  unfolding refresh
  refresh-used now fresh token s s' t x done found =
      elim (Option-cases (sessions.update x.id (revoked services users sessions) s.sessions)) [
        | inl gone ↦ absurd (ground (arith, done, found, gone))
        | inr ((r, store), there) ↦
            let token_is : Session → Bool = λ y. y.refresh_token == token in
            let same : s'.sessions ≡ sessions.create (opened now fresh x) store =
              ground (arith, done, found, there) in
            let kept : find token_is (sessions.rows store)
                ≡ some (revoked services users sessions x) =
              ap (find token_is)
                (update-rows sessions x.id (revoked services users sessions) s.sessions there)
              ∙ find-update_where token_is (λ y. sessions.id_of y == x.id)
                  (revoked services users sessions) (sessions.rows s.sessions) (λ y. refl)
                  (sym (sessions.find_first-rows _ _) ∙ found)
              ∙ ap (λ (b : Bool). some (if b then revoked services users sessions x else x))
                  (ap (λ i. i == x.id) (keyed x) ∙ eq_refl x.id) in
            sessions.find_first-rows token_is s'.sessions
            ∙ ap (λ st. find token_is (sessions.rows st)) same
            ∙ ap (find token_is) (sessions.rows-create (opened now fresh x) store)
            ∙ find-append_first token_is (sessions.rows store) (opened now fresh x ∷ []) kept
      ]

  -- A refresh token that was used once and has not expired: using it again is refused, and revokes
  -- every session of its user, the one opened by the first use too.
  pub refresh-twice :
      (now : ℕ) (fresh : Fresh) (token : String) (s s' : State services users sessions) (t : Tokens)
      (x : Session)
      → refresh services users sessions now fresh token s ≡ (ok t, s')
      → session_of token s ≡ some x
      → (token == "") ≡ false
      → (later : ℕ) (fresh' : Fresh) → later ≤ x.expires_at
      → let (reply, s'') = refresh services users sessions later fresh' token s' in
        (reply
          ≡ throw
              (unauthorized "Sesión inválida. Por seguridad, cierra sesión y vuelve a iniciar."))
        × AllRevoked x.user_id (sessions.rows s''.sessions)
        × (s''.users ≡ s'.users)
  refresh-twice now fresh token s s' t x done found some_token later fresh' live =
      refresh-reused later fresh' token s' (revoked services users sessions x) some_token
        (refresh-used now fresh token s s' t x done found) live refl
