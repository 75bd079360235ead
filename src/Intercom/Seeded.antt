-- ===== src/Intercom/Seeded.antt =====
-- The default templates are created once; who a command's notifications go to.
use live_ops_backend.Prelude.{
  ℕ, zero, suc, String, ◌==◌, ◌≡◌, refl, Bool, true, List, [], ◌∷◌, ◌++◌, none, some, sym, ap, ◌∙◌,
  subst, ok, Bool-cases, inl, inr, In, here, there, filter, eq_refl, ◌↔◌, map,
}
use live_ops_backend.Prelude.Table.{Table}
use live_ops_backend.Intercom.{
  CommandTemplate, Command, ProductionUser, Sent, push_alert, Intercom, defaults, default_row,
  add_template, seed_from, of_production, or_seeded, get_templates, has_role, set_text,
  handle_push_notification,
}

In-left : {A : Type 0} {a : A} (xs ys : List A) → In a xs → In a (xs ++ ys)
In-left (x ∷ xs) ys here = here
In-left (x ∷ xs) ys (there m) = there (In-left xs ys m)
In-left [] ys m = elim m [ ]

In-last : {A : Type 0} {a : A} (xs : List A) → In a (xs ++ a ∷ [])
In-last [] = here
In-last (x ∷ xs) = there (In-last xs)

In-map-filter :
    (p : ProductionUser → Bool) (ms : List ProductionUser) (user : String) (c : Command)
    → In (push_alert user c) (map (λ (m : ProductionUser). push_alert m.user_id c) (filter p ms))
    → (m : ProductionUser) × In m ms × (p m ≡ true) × (m.user_id ≡ user)
In-map-filter p ms user c i = go ms (push_alert user c) refl i
  where
    same_user : {a b : String} → push_alert a c ≡ push_alert b c → a ≡ b
    same_user e = cc

    go :
        (ms : List ProductionUser) (x : Sent)
        → x ≡ push_alert user c
        → In x (map (λ (m : ProductionUser). push_alert m.user_id c) (filter p ms))
        → (m : ProductionUser) × In m ms × (p m ≡ true) × (m.user_id ≡ user)
    go [] x e i = elim i [ ]
    go (m ∷ ms) x e i = elim (Bool-cases (p m)) [
      | inl on ↦ head m ms x on e (go ms x e) (rw on at i)
      | inr off ↦ let (m', i', h, u) = go ms x e (rw off at i) in (m', there i', h, u)
    ]
      where
        head :
            (m : ProductionUser) (ms : List ProductionUser) (x : Sent)
            → p m ≡ true
            → x ≡ push_alert user c
            → (In x (map (λ (m : ProductionUser). push_alert m.user_id c) (filter p ms))
                → (m : ProductionUser) × In m ms × (p m ≡ true) × (m.user_id ≡ user))
            → In x (
                push_alert m.user_id c
                ∷ map (λ (m : ProductionUser). push_alert m.user_id c) (filter p ms))
            → (k : ProductionUser) × In k (m ∷ ms) × (p k ≡ true) × (k.user_id ≡ user)
        head m ms x on e rest here = (m, here, on, same_user e)
        head m ms x on e rest (there i) = let (m', i', h, u) = rest i in (m', there i', h, u)

filter-map-In :
    (p : ProductionUser → Bool) (ms : List ProductionUser) (user : String) (c : Command)
    → ((m : ProductionUser) × In m ms × (p m ≡ true) × (m.user_id ≡ user))
    → In (push_alert user c) (map (λ (m : ProductionUser). push_alert m.user_id c) (filter p ms))
filter-map-In p ms user c (m, i, on, same) = go ms i
  where
    go :
        (ms : List ProductionUser)
        → In m ms
        → In
            (push_alert user c)
            (map (λ (m : ProductionUser). push_alert m.user_id c) (filter p ms))
    go [] i = elim i [ ]
    go (x ∷ ms) here = rw (on, ← same) here
    go (x ∷ ms) (there i) = elim (Bool-cases (p x)) [
      | inl yes_ ↦ rw yes_ (there (go ms i))
      | inr no_ ↦ rw no_ (go ms i)
    ]

module _ (templates : Table CommandTemplate) (commands : Table Command) where
  seed_from-keeps :
      (fresh : ℕ → String) (n : ℕ) (production : String) (ds : List (String × String))
      (s : Intercom templates commands) (t : CommandTemplate)
      → In t (templates.rows s.templates)
      → In t (templates.rows (seed_from templates commands fresh n production ds s).templates)
  unfolding seed_from
  seed_from-keeps fresh n production [] s t m = m
  seed_from-keeps fresh n production (d ∷ ds) s t m =
      seed_from-keeps fresh (suc n) production ds _ t (
        subst (In t) (sym (templates.rows-create (default_row fresh n production d) s.templates))
          (In-left (templates.rows s.templates) _ m))

  none_filtered :
      (p : CommandTemplate → Bool) (xs : List CommandTemplate) (t : CommandTemplate)
      → In t xs
      → p t ≡ true
      → filter p xs ≡ []
      → ⊥
  none_filtered p [] t m h e = elim m [ ]
  none_filtered p (x ∷ xs) t here h e = cc (rw h at e)
  none_filtered p (x ∷ xs) t (there m) h e = elim (Bool-cases (p x)) [
    | inl on ↦ cc (rw on at e)
    | inr off ↦ none_filtered p xs t m h (rw off at e)
  ]

  seeded_some :
      (fresh : ℕ → String) (n : ℕ) (production : String) (d : String × String)
      (ds : List (String × String)) (s : Intercom templates commands)
      → of_production templates commands production
          (seed_from templates commands fresh n production (d ∷ ds) s)
        ≡ []
      → ⊥
  unfolding seed_from
  seeded_some fresh n production d ds s e =
      let row = default_row fresh n production d in
      none_filtered (λ t. t.production_id == production) _ row
        (seed_from-keeps fresh (suc n) production ds (add_template templates commands row s) row (
          subst (In row) (sym (templates.rows-create row s.templates))
            (In-last (templates.rows s.templates))))
        (eq_refl production) (sym (templates.find_many-rows _ _) ∙ e)

  seeded_nonempty :
      (fresh : ℕ → String) (production : String) (ds : List (String × String))
      (s : Intercom templates commands)
      → (ds ≡ [] → ⊥)
      → of_production templates commands production
          (seed_from templates commands fresh zero production ds s)
        ≡ []
      → ⊥
  seeded_nonempty fresh production [] s some_row e = some_row refl
  seeded_nonempty fresh production (d ∷ ds) s some_row e =
      seeded_some fresh zero production d ds s e

  -- Asking for a production's templates a second time gives the same templates and creates none,
  -- whether the first time created the defaults or not.
  pub get_templates_once :
      (fresh fresh' : ℕ → String) (production : String) (s : Intercom templates commands)
      → get_templates templates commands fresh' production
          (get_templates templates commands fresh production s).1
        ≡ get_templates templates commands fresh production s
  unfolding get_templates
  get_templates_once fresh fresh' production s =
      go (of_production templates commands production s) refl
    where
      settled :
          (l : List CommandTemplate) (t : Intercom templates commands)
          → of_production templates commands production t ≡ l
          → (l ≡ [] → ⊥)
          → or_seeded templates commands fresh' production l t ≡ (ok l, t)
      settled [] t same some_row = absurd (some_row refl)
      settled (x ∷ xs) t same some_row = refl

      go :
          (l : List CommandTemplate)
          → of_production templates commands production s ≡ l
          → or_seeded templates commands fresh' production
              (of_production templates commands production
                (or_seeded templates commands fresh production l s).1)
              (or_seeded templates commands fresh production l s).1
            ≡ or_seeded templates commands fresh production l s
      go [] same = settled _ _ refl (seeded_nonempty fresh production defaults s (λ e. cc))
      go (x ∷ xs) same =
          ap (λ (l : List CommandTemplate). or_seeded templates commands fresh' production l s) same

-- A command for a role, and for no user by name: its notifications go to the members of the
-- production with that role and to no one else.
pub handle_push_notification-members :
    (c : Command) (role : String) (members : List ProductionUser) (user : String)
    → set_text c.target_user_id ≡ none
    → set_text c.target_role_id ≡ some role
    → In (push_alert user c) (handle_push_notification c members) ↔ (
        (m : ProductionUser) × In m members
        × (has_role c.production_id role m ≡ true)
        × (m.user_id ≡ user))
unfolding handle_push_notification
handle_push_notification-members c role members user no_user to_role =
    rw (no_user, to_role)
      (
        In-map-filter (has_role c.production_id role) members user c,
        filter-map-In (has_role c.production_id role) members user c,
      )
