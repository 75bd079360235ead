-- ===== src/Guards/Roles/Permitted.antt =====
-- Who passes the roles guard.
use live_ops_backend.Prelude.{
  String, ◌==◌, ◌≡◌, refl, true, List, [], ◌∷◌, Option, none, some, arith, ◌↔◌, ◌⊎◌, inl, inr,
  Bool-cases, In, includes, includes_iff, ok, eq_iff, ap, ◌∙◌,
}
use live_ops_backend.Guards.Request.{Query, rejected, result, Request, production_of}
use live_ops_backend.Guards.Roles.{
  is_admin_role, awaiting, can_activate, user_role, global_role, production_role, member_role,
}

module _ (find_user : String → Query (Option (Option String)))
    (find_production_user : String → String → Query (Option String)) where
  pub data Permitted (required : List String) (r : Request) : Type 0 where
    nothing_required : required ≡ [] → Permitted required r
    by_global_role :
        (user name : String)
        → r.user ≡ some user
        → find_user user ≡ result (some (some name))
        → (name ≡ "SUPERADMIN") ⊎ In name required
        → Permitted required r
    by_production_role :
        (user production name : String) (role : Option String)
        → r.user ≡ some user
        → find_user user ≡ result (some role)
        → production_of r ≡ some production
        → find_production_user user production ≡ result (some name)
        → ((name ≡ "SUPERADMIN") ⊎ (name ≡ "ADMIN")) ⊎ In name required
        → Permitted required r

  admin_sound :
      (name : String) → is_admin_role name ≡ true → (name ≡ "SUPERADMIN") ⊎ (name ≡ "ADMIN")
  admin_sound name h = elim (Bool-cases (name == "SUPERADMIN")) [
    | inl e ↦ inl ((eq_iff _ _).0 e)
    | inr e ↦ inr ((eq_iff _ _).0 (rw e at h))
  ]

  member_sound :
      (required : List String) (m : Option String)
      → member_role find_user find_production_user required m ≡ ok true
      → (name : String) × (m ≡ some name)
        × (((name ≡ "SUPERADMIN") ⊎ (name ≡ "ADMIN")) ⊎ In name required)
  member_sound required none h = cc
  member_sound required (some name) h = elim (Bool-cases (is_admin_role name)) [
    | inl e ↦ (name, refl, inl (admin_sound name e))
    | inr e ↦ elim (Bool-cases (includes name required)) [
      | inl c ↦ (name, refl, inr ((includes_iff name required).0 c))
      | inr c ↦ absurd (cc (rw (e, c) at h))
    ]
  ]

  production_sound :
      (required : List String) (r : Request) (user : String) (role : Option String)
      (production : Option String)
      → r.user ≡ some user
      → find_user user ≡ result (some role)
      → production_of r ≡ production
      → production_role find_user find_production_user required user production ≡ ok true
      → Permitted required r
  production_sound required r user role none u f p h = cc
  production_sound required r user role (some production) u f p h =
      go (find_production_user user production) refl h
    where
      go :
          (q : Query (Option String))
          → find_production_user user production ≡ q
          → awaiting q (member_role find_user find_production_user required) ≡ ok true
          → Permitted required r
      go rejected e k = cc
      go (result m) e k =
          let (name, same, how) = member_sound required m k in
          by_production_role user production name role u f p (e ∙ ap result same) how

  global_sound :
      (required : List String) (r : Request) (user : String) (role : Option String)
      → r.user ≡ some user
      → find_user user ≡ result (some role)
      → global_role find_user find_production_user required user (production_of r) (some role)
        ≡ ok true
      → Permitted required r
  global_sound required r user none u f h =
      production_sound required r user none (production_of r) u f refl h
  global_sound required r user (some name) u f h = elim (Bool-cases (name == "SUPERADMIN")) [
    | inl e ↦ by_global_role user name u f (inl ((eq_iff _ _).0 e))
    | inr e ↦ elim (Bool-cases (includes name required)) [
      | inl c ↦ by_global_role user name u f (inr ((includes_iff name required).0 c))
      | inr c ↦
          production_sound required r user (some name) (production_of r) u f refl (rw (e, c) at h)
    ]
  ]

  user_sound :
      (required : List String) (r : Request) (o : Option String)
      → r.user ≡ o
      → user_role find_user find_production_user required o (production_of r) ≡ ok true
      → Permitted required r
  user_sound required r none u h = cc
  user_sound required r (some user) u h = go (find_user user) refl h
    where
      go :
          (q : Query (Option (Option String)))
          → find_user user ≡ q
          → awaiting q (global_role find_user find_production_user required user (production_of r))
            ≡ ok true
          → Permitted required r
      go rejected e k = cc
      go (result none) e k = cc
      go (result (some role)) e k = global_sound required r user role u e k

  Permitted-sound :
      (required : List String) (r : Request)
      → can_activate find_user find_production_user required r ≡ ok true
      → Permitted required r
  unfolding can_activate
  Permitted-sound [] r h = nothing_required refl
  Permitted-sound (p ∷ ps) r h = user_sound (p ∷ ps) r r.user refl h

  admin_complete :
      (name : String) → (name ≡ "SUPERADMIN") ⊎ (name ≡ "ADMIN") → is_admin_role name ≡ true
  admin_complete name h = ground (arith, eq_iff name "SUPERADMIN", eq_iff name "ADMIN")

  global_complete :
      (required : List String) (user : String) (production role : Option String)
      → production_role find_user find_production_user required user production ≡ ok true
      → global_role find_user find_production_user required user production (some role) ≡ ok true
  global_complete required user production none h = h
  global_complete required user production (some name) h = ground arith

  member_complete :
      (required : List String) (name : String)
      → ((name ≡ "SUPERADMIN") ⊎ (name ≡ "ADMIN")) ⊎ In name required
      → member_role find_user find_production_user required (some name) ≡ ok true
  member_complete required name (inl a) = rw (admin_complete name a)
  member_complete required name (inr m) = ground (arith, (includes_iff name required).1 m)

  Permitted-complete :
      (required : List String) (r : Request)
      → Permitted required r
      → can_activate find_user find_production_user required r ≡ ok true
  unfolding can_activate
  Permitted-complete [] r g = refl
  Permitted-complete (p ∷ ps) r (nothing_required e) = cc
  Permitted-complete (p ∷ ps) r (by_global_role user name u f (inl n)) =
      rw (u, f) (ground (arith, (eq_iff name "SUPERADMIN").1 n))
  Permitted-complete (p ∷ ps) r (by_global_role user name u f (inr m)) =
      rw (u, f) (ground (arith, (includes_iff name (p ∷ ps)).1 m))
  Permitted-complete (p ∷ ps) r (by_production_role user production name role u f pr m how) =
      rw (pr, u, f)
        (global_complete (p ∷ ps) user (some production) role
          (rw m (member_complete (p ∷ ps) name how)))

  -- A request passes the roles guard exactly when no role is required, the user's global role is
  -- SUPERADMIN or a required one, or the role in the request's production is SUPERADMIN, ADMIN or
  -- a required one.
  pub can_activate-Permitted :
      (required : List String) (r : Request)
      → (can_activate find_user find_production_user required r ≡ ok true) ↔ Permitted required r
  can_activate-Permitted required r = (Permitted-sound required r, Permitted-complete required r)
