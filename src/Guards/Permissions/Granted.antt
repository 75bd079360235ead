-- ===== src/Guards/Permissions/Granted.antt =====
-- Who passes the permissions guard.
use live_ops_backend.Prelude.{
  String, ◌==◌, ◌≡◌, refl, true, ◌&&◌, List, [], ◌∷◌, ◌++◌, Option, none, some, arith, ◌↔◌, ◌⊎◌,
  inl, inr, Bool-cases, In, all, includes, includes_iff, all→In, In→all, ok, eq_iff, ap, ◌∙◌,
}
use live_ops_backend.Guards.Request.{
  Query, rejected, result, DbRole, actions_of, Request, production_of,
}
use live_ops_backend.Guards.Permissions.{
  is_admin_name, is_read, covers, refuse_rejected, implicit_permissions, can_activate,
  check_request, check_user, check_production, member_grants, name_grants, global_name,
  global_actions,
}

-- Each of the texts stands among those that are held.
abbrev pub Among : List String → List String → Type 0
Among held required = (p : String) → In p required → In p held

covers_iff : (held required : List String) → (covers held required ≡ true) ↔ Among held required
covers_iff held required = (
  λ h p m. (includes_iff p held).0 (all→In (λ p. includes p held) required p h m),
  λ f. In→all (λ p. includes p held) required (λ p m. (includes_iff p held).1 (f p m)),
)

module _ (to_upper_case trim : String → String)
    (find_user : String → Query (Option (Option DbRole)))
    (find_production_user : String → String → Query (Option DbRole)) where
  -- What lets a request with these required permissions pass.
  pub data Granted (required : List String) (r : Request) : Type 0 where
    nothing_required : required ≡ [] → Granted required r
    by_global_name :
        (user : String) (role : Option DbRole)
        → r.user ≡ some user
        → find_user user ≡ result (some role)
        → is_admin_name (global_name to_upper_case trim find_user find_production_user role) ≡ true
        → Granted required r
    by_viewer_read :
        (user : String) (role : Option DbRole)
        → r.user ≡ some user
        → find_user user ≡ result (some role)
        → global_name to_upper_case trim find_user find_production_user role ≡ "VIEWER"
        → ((p : String) → In p required → is_read p ≡ true)
        → Granted required r
    by_global_permissions :
        (user : String) (role : Option DbRole)
        → r.user ≡ some user
        → find_user user ≡ result (some role)
        → Among (global_actions to_upper_case trim find_user find_production_user role) required
        → Granted required r
    by_membership :
        (user production : String) (role : Option DbRole) (member : DbRole)
        → r.user ≡ some user
        → find_user user ≡ result (some role)
        → production_of r ≡ some production
        → find_production_user user production ≡ result (some member)
        → (is_admin_name (to_upper_case member.name) ≡ true)
          ⊎ Among (actions_of member.permissions ++ implicit_permissions) required
        → Granted required r

  name_sound :
      (name : String) (required : List String)
      → name_grants to_upper_case trim find_user find_production_user name required ≡ true
      → (is_admin_name name ≡ true)
        ⊎ ((name ≡ "VIEWER") × ((p : String) → In p required → is_read p ≡ true))
  name_sound name required h = elim (Bool-cases (is_admin_name name)) [
    | inl e ↦ inl e
    | inr e ↦
        let both : (name == "VIEWER" && all is_read required) ≡ true = rw e at h in
        let viewer : (name == "VIEWER") ≡ true = ground arith in
        inr ((eq_iff _ _).0 viewer, λ p m. all→In is_read required p (ground arith) m)
  ]

  member_sound :
      (required : List String) (m : Option DbRole)
      → member_grants to_upper_case trim find_user find_production_user required m ≡ ok true
      → (member : DbRole) × (m ≡ some member)
        × ((is_admin_name (to_upper_case member.name) ≡ true)
            ⊎ Among (actions_of member.permissions ++ implicit_permissions) required)
  member_sound required none h = cc
  member_sound required (some member) h =
      elim (Bool-cases (is_admin_name (to_upper_case member.name))) [
        | inl e ↦ (member, refl, inl e)
        | inr e ↦
            elim (Bool-cases
              (covers (actions_of member.permissions ++ implicit_permissions) required)) [
                | inl c ↦ (member, refl, inr ((covers_iff _ _).0 c))
                | inr c ↦ absurd (cc (rw (e, c) at h))
              ]
      ]

  production_sound :
      (required : List String) (r : Request) (user : String) (role : Option DbRole)
      (production : Option String)
      → r.user ≡ some user
      → find_user user ≡ result (some role)
      → production_of r ≡ production
      → check_production to_upper_case trim find_user find_production_user required user production
        ≡ ok true
      → Granted required r
  production_sound required r user role none u f p h = cc
  production_sound required r user role (some production) u f p h =
      go (find_production_user user production) refl h
    where
      go :
          (q : Query (Option DbRole))
          → find_production_user user production ≡ q
          → refuse_rejected q
              (member_grants to_upper_case trim find_user find_production_user required)
            ≡ ok true
          → Granted required r
      go rejected e k = cc
      go (result m) e k =
          let (member, same, how) = member_sound required m k in
          by_membership user production role member u f p (e ∙ ap result same) how

  user_sound :
      (required : List String) (r : Request) (user : String) (role : Option DbRole)
      → r.user ≡ some user
      → find_user user ≡ result (some role)
      → check_user to_upper_case trim find_user find_production_user required user
          (production_of r)
          (some role)
        ≡ ok true
      → Granted required r
  user_sound required r user role u f h =
      elim (Bool-cases (
        name_grants to_upper_case trim find_user find_production_user
          (global_name to_upper_case trim find_user find_production_user role) required)) [
            | inl e ↦
                elim (name_sound
                  (global_name to_upper_case trim find_user find_production_user role) required e) [
                    | inl admin ↦ by_global_name user role u f admin
                    | inr (viewer, reads) ↦ by_viewer_read user role u f viewer reads
                  ]
            | inr e ↦
                elim (Bool-cases (
                  covers (global_actions to_upper_case trim find_user find_production_user role)
                    required)) [
                      | inl c ↦ by_global_permissions user role u f ((covers_iff _ _).0 c)
                      | inr c ↦
                          production_sound required r user role (production_of r) u f refl
                            (rw (e, c) at h)
                    ]
          ]

  request_sound :
      (required : List String) (r : Request) (o : Option String)
      → r.user ≡ o
      → check_request to_upper_case trim find_user find_production_user required o (production_of r)
        ≡ ok true
      → Granted required r
  request_sound required r none u h = cc
  request_sound required r (some user) u h = go (find_user user) refl h
    where
      go :
          (q : Query (Option (Option DbRole)))
          → find_user user ≡ q
          → refuse_rejected q (
              check_user to_upper_case trim find_user find_production_user required user
                (production_of r))
            ≡ ok true
          → Granted required r
      go rejected e k = cc
      go (result none) e k = cc
      go (result (some role)) e k = user_sound required r user role u e k

  Granted-sound :
      (required : List String) (r : Request)
      → can_activate to_upper_case trim find_user find_production_user required r ≡ ok true
      → Granted required r
  unfolding can_activate
  Granted-sound [] r h = nothing_required refl
  Granted-sound (p ∷ ps) r h = request_sound (p ∷ ps) r r.user refl h

  Granted-complete :
      (required : List String) (r : Request)
      → Granted required r
      → can_activate to_upper_case trim find_user find_production_user required r ≡ ok true
  unfolding can_activate
  Granted-complete [] r g = refl
  Granted-complete (p ∷ ps) r (nothing_required e) = cc
  Granted-complete (p ∷ ps) r (by_global_name user role u f n) = rw (u, f, n)
  Granted-complete (p ∷ ps) r (by_viewer_read user role u f n reads) =
      rw (u, f)
        (ground (
          arith,
          n,
          eq_iff (global_name to_upper_case trim find_user find_production_user role) "VIEWER",
          In→all is_read (p ∷ ps) reads,
        ))
  Granted-complete (p ∷ ps) r (by_global_permissions user role u f c) =
      rw (u, f) (ground (arith, (covers_iff _ _).1 c))
  Granted-complete (p ∷ ps) r (by_membership user production role member u f pr m (inl n)) =
      rw (pr, u, f, m) (ground (arith, n))
  Granted-complete (p ∷ ps) r (by_membership user production role member u f pr m (inr c)) =
      rw (pr, u, f, m) (ground (arith, (covers_iff _ _).1 c))

  -- A request passes the permissions guard exactly when nothing is required, the global role is an
  -- administrator's, or a viewer's and all is reading, or it has the permissions, or the user is a
  -- member of the request's production as an administrator or with the permissions, the implicit
  -- ones included.
  pub can_activate-Granted :
      (required : List String) (r : Request)
      → (can_activate to_upper_case trim find_user find_production_user required r ≡ ok true)
        ↔ Granted required r
  can_activate-Granted required r = (Granted-sound required r, Granted-complete required r)
