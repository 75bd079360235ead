-- ===== src/Social/Shown.antt =====
-- Which messages are on air after one was put there.
use live_ops_backend.Prelude.{
  String, ◌==◌, ◌≡◌, refl, Bool, true, false, ◌&&◌, List, [], ◌∷◌, ◌++◌, Option, some, arith, sym,
  ap, ◌∙◌, subst, ok, World, Option-cases, Bool-cases, inl, inr, All, update_where, if◌then◌else◌,
  eq_iff, eq_refl, find, find-update_where, find-satisfies,
}
use live_ops_backend.Prelude.Table.{Table, update-rows, update-row, update-found}
use live_ops_backend.Social.{
  SocialMessage, MessageStatus, on_air, approved, Event, message_updated, social_show, comment_of,
  is_shown, with_status, update_message_status,
}

-- Only the message `k` may be on air in the production.
abbrev pub OnlyShown : String → String → List SocialMessage → Type 0
OnlyShown production_id k xs =
    All (λ (m : SocialMessage). is_shown production_id m ≡ true → m.id ≡ k) xs

idle : (b : Bool) → (b && false) ≡ true → ⊥
idle true h = cc
idle false h = cc

-- the rows after the two writes
written-OnlyShown :
    (production_id id : String) (p : SocialMessage → Bool) (xs : List SocialMessage)
    → ((m : SocialMessage) → p m ≡ (m.id == id))
    → OnlyShown production_id id (
        update_where p
          (with_status on_air)
          (update_where (is_shown production_id) (with_status approved) xs))
written-OnlyShown production_id id p [] same = tt
written-OnlyShown production_id id p (x ∷ xs) same =
    let ih = written-OnlyShown production_id id p xs same in
    elim (Bool-cases (is_shown production_id x)) [
      | inl e ↦ elim (Bool-cases (x.id == id)) [
        | inl g ↦ rw (e, same (with_status approved x), g) ((λ on. (eq_iff x.id id).0 g), ih)
        | inr g ↦
            rw (e, same (with_status approved x), g)
              ((λ on. absurd (idle (x.production_id == production_id) on)), ih)
      ]
      | inr e ↦ elim (Bool-cases (x.id == id)) [
        | inl g ↦ rw (e, same x, g) ((λ on. (eq_iff x.id id).0 g), ih)
        | inr g ↦ rw (e, same x, g) ((λ on. absurd (cc (on, e))), ih)
      ]
    ]

module _ (messages : Table SocialMessage) (keyed : messages.id_of ≡ (λ m. m.id))
    (production_id : String) where
  -- A message that is put on air with success: it is on air, no other message of the production is,
  -- and the overlays are told of it.
  pub update_message_status-OnlyShown :
      (id : String) (w w' : World messages.Store Event) (m : SocialMessage)
      → update_message_status messages production_id id "ON_AIR" w ≡ (ok m, w')
      → (m.status ≡ on_air)
        × OnlyShown production_id id (messages.rows w'.db)
        × (w'.events
            ≡ ((w.events ++ message_updated m ∷ []) ++ social_show m ∷ [])
              ++ comment_of production_id m ∷ [])
  unfolding update_message_status
  update_message_status-OnlyShown id w w' m h =
      let cleared : messages.Store =
        messages.update_many (is_shown production_id) (with_status approved) w.db in
      elim (Option-cases (messages.update id (with_status on_air) cleared)) [
        | inl gone ↦ absurd (ground (arith, h, gone))
        | inr ((x, s'), done) ↦
            let (x₀, there, written) =
              update-row messages id (with_status on_air) cleared {r = x} {s' = s'} done in
            let (same, wrote, sent) = parts x s' done in
            (
              ap (λ (y : SocialMessage). y.status) (same ∙ written),
              subst (OnlyShown production_id id)
                  (sym (
                    ap messages.rows wrote
                    ∙ update-rows messages id (with_status on_air) cleared {r = x} {s' = s'} done
                    ∙ ap (update_where (λ x. messages.id_of x == id) (with_status on_air)) (
                        messages.rows-update_many (is_shown production_id) (with_status approved)
                          w.db)))
                  (written-OnlyShown production_id id (λ x. messages.id_of x == id)
                    (messages.rows w.db) (λ b. ap (λ f. f b == id) keyed)),
              sent,
            )
      ]
    where
      parts :
          (x : SocialMessage) (s' : messages.Store)
          → messages.update id
              (with_status on_air)
              (messages.update_many (is_shown production_id) (with_status approved) w.db)
            ≡ some (x, s')
          → (m ≡ x)
            × (w'.db ≡ s')
            × (w'.events
                ≡ ((w.events ++ message_updated m ∷ []) ++ social_show m ∷ [])
                  ++ comment_of production_id m ∷ [])
      parts x s' done = (ground (arith, h, done), ground (arith, h, done), ground (arith, h, done))

  abbrev pub message_at : String → messages.Store → Option SocialMessage
  message_at id s = find (λ m. messages.id_of m == id) (messages.rows s)

  message_at-update :
      (p : SocialMessage → Bool) (status : MessageStatus) (id : String) (xs : List SocialMessage)
      {m : SocialMessage}
      → find (λ m. messages.id_of m == id) xs ≡ some m
      → find (λ m. messages.id_of m == id) (update_where p (with_status status) xs)
        ≡ some (if p m then with_status status m else m)
  message_at-update p status id xs h =
      find-update_where (λ m. messages.id_of m == id) p (with_status status) xs
        (λ u. ap (λ f. f (with_status status u) == id) keyed ∙ sym (ap (λ f. f u == id) keyed)) h

  message_at-cleared :
      (id : String) (w : World messages.Store Event) (m : SocialMessage)
      → (m.production_id == production_id) ≡ false
      → message_at id w.db ≡ some m
      → message_at id (messages.update_many (is_shown production_id) (with_status approved) w.db)
        ≡ some m
  message_at-cleared id w m apart h =
      ap (find (λ m. messages.id_of m == id))
        (messages.rows-update_many (is_shown production_id) (with_status approved) w.db)
      ∙ message_at-update (is_shown production_id) approved id (messages.rows w.db) h
      ∙ rw apart refl

  -- A call that puts a message on air, for a production that neither this message nor another one is
  -- of: it succeeds in that, and leaves the other one as it is, on air or not.
  pub foreign_message_shown :
      (a b : String) (w : World messages.Store Event) (x y : SocialMessage)
      → (a == b) ≡ false
      → message_at a w.db ≡ some x
      → message_at b w.db ≡ some y
      → (x.production_id == production_id) ≡ false
      → (y.production_id == production_id) ≡ false
      → let after = (update_message_status messages production_id b "ON_AIR" w).1 in
        (message_at a after.db ≡ some x) × (message_at b after.db ≡ some (with_status on_air y))
  unfolding update_message_status
  foreign_message_shown a b w x y apart at_a at_b other_x other_y =
      let cleared : messages.Store =
        messages.update_many (is_shown production_id) (with_status approved) w.db in
      let a₁ : message_at a cleared ≡ some x = message_at-cleared a w x other_x at_a in
      let b₁ : message_at b cleared ≡ some y = message_at-cleared b w y other_y at_b in
      let (s', done, wrote) = update-found messages b (with_status on_air) cleared b₁ in
      let same : (update_message_status messages production_id b "ON_AIR" w).1.db ≡ s' =
        ground (arith, done) in
      let id_of_x : messages.id_of x ≡ a = id_at a at_a in
      let id_of_y : messages.id_of y ≡ b = id_at b at_b in
      (
        ap (message_at a) same
            ∙ ap (find (λ m. messages.id_of m == a)) wrote
            ∙ message_at-update (λ m. messages.id_of m == b) on_air a (messages.rows cleared) a₁
            ∙ rw (id_of_x, apart) refl,
        ap (message_at b) same
            ∙ ap (find (λ m. messages.id_of m == b)) wrote
            ∙ message_at-update (λ m. messages.id_of m == b) on_air b (messages.rows cleared) b₁
            ∙ rw (id_of_y, eq_refl b) refl,
      )
    where
      id_at :
          (id : String) {m : SocialMessage} → message_at id w.db ≡ some m → messages.id_of m ≡ id
      id_at id {m} h =
          (eq_iff (messages.id_of m) id).0
            (find-satisfies (λ m. messages.id_of m == id) (messages.rows w.db) h).1
