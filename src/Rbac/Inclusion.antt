-- ===== src/Rbac/Inclusion.antt =====
-- How the standard roles include each other, and that permissions are told apart by their values.
use live_ops_backend.Prelude.{String, ◌≡◌, refl, true, In, includes, all, all→In, includes_iff}
use live_ops_backend.Rbac.{
  permissions, actions, StandardRole, admin, director, operator, talent, viewer, guest,
}

-- a role has no more than another
infix 4 ◌⊑◌
data ◌⊑◌ : StandardRole → StandardRole → Type 0 where
  viewer_operator : viewer ⊑ operator
  talent_operator : talent ⊑ operator
  guest_operator : guest ⊑ operator
  operator_director : operator ⊑ director
  director_admin : director ⊑ admin

-- Whatever a viewer, a talent or a guest may do, an operator may; what an operator may, a director;
-- what a director may, an administrator.
⊑-actions : (r s : StandardRole) (a : String) → r ⊑ s → In a (actions r) → In a (actions s)
unfolding permissions
⊑-actions r s a le m =
    (includes_iff a (actions s)).0
      (all→In (λ x. includes x (actions s)) (actions r) a (covered r s le) m)
  where
    covered : (r s : StandardRole) → r ⊑ s → all (λ x. includes x (actions s)) (actions r) ≡ true
    covered _ _ viewer_operator = refl
    covered _ _ talent_operator = refl
    covered _ _ guest_operator = refl
    covered _ _ operator_director = refl
    covered _ _ director_admin = refl
