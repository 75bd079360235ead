-- ===== src/Productions/State/Update.antt =====
-- What a status change does, on success and on failure.
use live_ops_backend.Prelude.{
  String, ◌==◌, ◌≡◌, refl, Bool, [], ◌∷◌, ◌++◌, some, arith, ok, throw, World, update_where,
  Exception, Option-cases, inl, inr, find-weaken, sym, ◌∙◌, map, map-update_where,
}
use live_ops_backend.Prelude.Table.{Table, update-rows, update-found}
use live_ops_backend.Productions.Transition.{
  ProductionStatus, active, name, assert_valid_transition,
}
use live_ops_backend.Productions.Transition.Legal.{◌⟶◌, assert_valid_transition_iff}
use live_ops_backend.Productions.State.Ready.{IsReady, validate_engine_connection_iff}
use live_ops_backend.Productions.State.{
  Production, Event, is_live, production_updated, state_change, validate_engine_connection,
  with_status, update_state, toggle_rehearsal,
}

-- What a successful change from `p` leaves behind.
pub record Changed (db : Table Production) (id : String) (t : ProductionStatus)
    (w w' : World db.Store Event) (r : Production) : Type 0 where
  pub before : Production
  pub found : db.find_first (is_live id) w.db ≡ some before
  pub legal : before.status ⟶ t
  pub ready : t ≡ active → IsReady before
  pub rows : db.rows w'.db ≡ update_where (λ p. db.id_of p == id) (with_status t) (db.rows w.db)
  pub sent :
      w'.events
      ≡ (w.events ++ production_updated id ∷ []) ++ state_change id before.status r.status ∷ []

module _ (db : Table Production) (id : String) (t : ProductionStatus) where
  -- A status change that succeeds was an arrow of the status diagram, had its engine connection
  -- ready if it goes live (one enabled for OBS or vMix, none needed for the app), wrote exactly the
  -- status of that production, and sent the update event and the audit entry.
  pub update_state_sound :
      (w w' : World db.Store Event) (r : Production)
      → update_state db id t w ≡ (ok r, w')
      → Changed db id t w w' r
  unfolding update_state
  update_state_sound w w' r h = elim (Option-cases (db.find_first (is_live id) w.db)) [
    | inl missed ↦ absurd (cc (rw (missed, update_state) at h))
    | inr (p, found) ↦ record {
      before = p;
      found = found;
      legal = (assert_valid_transition_iff _ _).0 (ground arith);
      ready = λ e. (validate_engine_connection_iff p).0 (ground arith);
      rows = elim (Option-cases (db.update id (with_status t) w.db)) [
        | inl gone ↦ absurd (ground arith)
        | inr (u, done) ↦
            ground (arith, update-rows db id (with_status t) w.db {r = u.0} {s' = u.1} done)
      ];
      sent = ground arith;
    }
  ]

  -- A status change that throws has written nothing and sent nothing.
  pub update_state_throws :
      (w w' : World db.Store Event) (e : Exception)
      → update_state db id t w ≡ (throw e, w')
      → w' ≡ w
  unfolding update_state
  update_state_throws w w' e h = ground arith

  go_ahead :
      (w : World db.Store Event) (p q : Production) (s' : db.Store)
      → db.find_first (is_live id) w.db ≡ some p
      → assert_valid_transition (name p.status) (name t) ≡ ok tt
      → (t ≡ active → validate_engine_connection p ≡ ok tt)
      → db.update id (with_status t) w.db ≡ some (with_status t q, s')
      → update_state db id t w ≡ (
        ok (with_status t q),
        record {
          db = s';
          events = (w.events ++ production_updated id ∷ []) ++ state_change id p.status t ∷ [];
        },
      )
  unfolding update_state
  go_ahead w p q s' found legal ready done = ground arith

  -- A legal change of a production that is there, with its engine ready, goes through.
  pub update_state_complete :
      ((p : Production) → db.id_of p ≡ p.id)
      → (w : World db.Store Event) (p : Production) → db.find_first (is_live id) w.db ≡ some p
      → p.status ⟶ t
      → (t ≡ active → IsReady p)
      → (r : Production) × (w' : World db.Store Event) × (update_state db id t w ≡ (ok r, w'))
  update_state_complete keyed w p found legal ready =
      let (q, there) =
        find-weaken (is_live id) (λ x. db.id_of x == id) (db.rows w.db)
          (λ x h. rw (keyed x) (ground arith)) (sym (db.find_first-rows _ _) ∙ found) in
      let (s', done, wrote) = update-found db id (with_status t) w.db there in
      (
        with_status t q,
        record {
          db = s';
          events = (w.events ++ production_updated id ∷ []) ++ state_change id p.status t ∷ [];
        },
        go_ahead w p q s' found ((assert_valid_transition_iff _ _).1 legal)
            (λ e. (validate_engine_connection_iff p).1 (ready e)) done,
      )

module _ (db : Table Production) (id : String) (enable : Bool) where
  -- Toggling rehearsal, successful or not, leaves every production's status as it was.
  pub toggle_rehearsal_keeps_status :
      (w : World db.Store Event)
      → map (λ (p : Production). p.status) (db.rows (toggle_rehearsal db id enable w).1.db)
        ≡ map (λ (p : Production). p.status) (db.rows w.db)
  unfolding toggle_rehearsal
  toggle_rehearsal_keeps_status w =
      let mark : Production → Production = λ p. record p { is_rehearsal = enable } in
      elim (Option-cases (db.update id mark w.db)) [
        | inl gone ↦ ground arith
        | inr (u, done) ↦ ground (
          arith,
          update-rows db id mark w.db {r = u.0} {s' = u.1} done,
          map-update_where (λ (p : Production). p.status) (λ x. db.id_of x == id) mark
              (db.rows w.db) (λ x. refl),
        )
      ]
