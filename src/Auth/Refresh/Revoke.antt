-- ===== src/Auth/Refresh/Revoke.antt =====
-- Ending sessions: what logout and the session list leave.
use live_ops_backend.Prelude.{
  ℕ, String, ◌==◌, ◌≡◌, refl, Bool, true, false, not, ◌&&◌, List, [], ◌∷◌, Option, none, some,
  arith, sym, ap, ◌∙◌, ok, if◌then◌else◌, Option-cases, Bool-cases, inl, inr, find, filter,
  update_where, All, find-update_where, find-satisfies, subst, ltb,
}
use live_ops_backend.Prelude.Table.{Table, update-rows}
use live_ops_backend.Auth.Store.{User, Session, Tokens, Fresh, Services, State, revoked}
use live_ops_backend.Auth.Refresh.{
  is_open_of, refresh, logout, get_sessions, revoke_session, is_kept, revoke_all_sessions,
}

module _ (services : Services) (users : Table User) (sessions : Table Session) where
  find-revoked-none :
      (p q : Session → Bool) (xs : List Session)
      → ((x : Session) → p (revoked services users sessions x) ≡ p x)
      → find p xs ≡ none
      → find p (update_where q (revoked services users sessions) xs) ≡ none
  find-revoked-none p q [] keep missed = refl
  find-revoked-none p q (x ∷ xs) keep missed = elim (Bool-cases (p x)) [
    | inl e ↦ absurd (ground (arith, missed, e))
    | inr e ↦ elim (Bool-cases (q x)) [
      | inl g ↦ rw (g, keep x, e) (find-revoked-none p q xs keep (ground (arith, missed, e)))
      | inr g ↦ rw (g, e) (find-revoked-none p q xs keep (ground (arith, missed, e)))
    ]
  ]

  All-filter :
      (p q k : Session → Bool) (xs : List Session)
      → ((x : Session) → q x ≡ true → p (revoked services users sessions x) ≡ false)
      → ((x : Session) → q x ≡ false → p x ≡ true → k x ≡ true)
      → All
          (λ (x : Session). k x ≡ true)
          (filter p (update_where q (revoked services users sessions) xs))
  All-filter p q k [] gone kept = tt
  All-filter p q k (x ∷ xs) gone kept =
      let ih = All-filter p q k xs gone kept in
      elim (Bool-cases (q x)) [
        | inl g ↦ rw (g, gone x g) ih
        | inr g ↦ elim (Bool-cases (p x)) [
          | inl e ↦ rw (g, e) (kept x g e, ih)
          | inr e ↦ rw (g, e) ih
        ]
      ]

  -- After a logout its refresh token opens no session any more.
  pub logout-refresh :
      (token : String) (now : ℕ) (fresh : Fresh) (s s' : State services users sessions) (t : Tokens)
      → ¬ (
          refresh services users sessions now fresh token (logout services users sessions token s).1
          ≡ (ok t, s'))
  unfolding refresh logout
  logout-refresh token now fresh s s' t h =
      let token_is : Session → Bool = λ y. y.refresh_token == token in
      let store = sessions.update_many token_is (revoked services users sessions) s.sessions in
      let seen : sessions.find_first token_is store
          ≡ find token_is
              (update_where token_is (revoked services users sessions) (sessions.rows s.sessions)) =
        sessions.find_first-rows token_is store
        ∙ ap (find token_is) (sessions.rows-update_many _ _ _) in
      elim (Option-cases (find token_is (sessions.rows s.sessions))) [
        | inl missed ↦ absurd (
            ground (
              arith,
              h,
              seen
                  ∙ find-revoked-none token_is token_is (sessions.rows s.sessions) (λ y. refl)
                      missed,
            ))
        | inr (x, found) ↦
            let after : sessions.find_first token_is store
                ≡ some (revoked services users sessions x) =
              seen
              ∙ find-update_where token_is token_is (revoked services users sessions)
                  (sessions.rows s.sessions) (λ y. refl) found
              ∙ ap (λ (b : Bool). some (if b then revoked services users sessions x else x))
                  (find-satisfies token_is (sessions.rows s.sessions) found).1 in
            ground (arith, h, after)
      ]

  -- After all sessions of a user but the one kept are revoked, only that one is listed.
  pub revoke_all_sessions-get_sessions :
      (user_id : String) (except : Option String) (now : ℕ) (s : State services users sessions)
      → All
          (λ (x : Session). is_kept services users sessions except x ≡ true)
          (get_sessions services users sessions now user_id
            (revoke_all_sessions services users sessions user_id except s).1)
  unfolding get_sessions revoke_all_sessions
  revoke_all_sessions-get_sessions user_id except now s =
      subst (All (λ (x : Session). is_kept services users sessions except x ≡ true))
        (sym (
          sessions.find_many-rows _ _
          ∙ ap (filter (λ x. is_open_of services users sessions user_id x && ltb now x.expires_at))
              (sessions.rows-update_many _ _ _)))
        (All-filter (λ x. is_open_of services users sessions user_id x && ltb now x.expires_at)
          (λ x.
            is_open_of services users sessions user_id x
            && not (is_kept services users sessions except x))
          (is_kept services users sessions except) (sessions.rows s.sessions)
          (λ x q. gone (x.user_id == user_id) (ltb now x.expires_at))
          (λ x.
            kept (is_open_of services users sessions user_id x)
              (is_kept services users sessions except x) (ltb now x.expires_at)))
    where
      gone : (a b : Bool) → ((a && false) && b) ≡ false
      gone true b = refl
      gone false b = refl

      kept : (o k l : Bool) → (o && not k) ≡ false → (o && l) ≡ true → k ≡ true
      kept true true l q e = refl
      kept true false l q e = cc
      kept false k l q e = cc

  -- Revoking one session: it succeeds only for a session of the user, and it writes no other.
  pub revoke_session_own :
      (user_id session_id : String) (s s' : State services users sessions)
      → revoke_session services users sessions user_id session_id s ≡ (ok tt, s')
      → (x : Session) × (find
            (λ y. y.id == session_id && y.user_id == user_id)
            (sessions.rows s.sessions)
          ≡ some x)
        × (sessions.rows s'.sessions
            ≡ update_where
                (λ y. sessions.id_of y == session_id)
                (revoked services users sessions)
                (sessions.rows s.sessions))
  unfolding revoke_session
  revoke_session_own user_id session_id s s' h =
      let own : Session → Bool = λ y. y.id == session_id && y.user_id == user_id in
      elim (Option-cases (sessions.find_first own s.sessions)) [
        | inl missed ↦ absurd (ground (arith, h, missed))
        | inr (x, found) ↦
            elim (Option-cases
              (sessions.update session_id (revoked services users sessions) s.sessions)) [
                | inl gone ↦ absurd (ground (arith, h, found, gone))
                | inr ((r, store), there) ↦
                    let same : s'.sessions ≡ store = ground (arith, h, found, there) in
                    (
                      x,
                      sym (sessions.find_first-rows own s.sessions) ∙ found,
                      ap sessions.rows same
                          ∙ update-rows sessions session_id (revoked services users sessions)
                              s.sessions there,
                    )
              ]
      ]
