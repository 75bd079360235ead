-- ===== src/Auth/Register/Registered.antt =====
-- What a registration that succeeds has checked and written.
use live_ops_backend.Prelude.{
  ℕ, String, ◌==◌, ◌≡◌, refl, Bool, true, false, [], ◌∷◌, ◌++◌, Option, none, some, arith, sym, ap,
  ◌∙◌, ok, Option-cases, Bool-cases, inl, inr,
}
use live_ops_backend.Prelude.Table.{Table}
use live_ops_backend.Auth.Store.{User, Services}
use live_ops_backend.Auth.Register.{
  Tenant, RegisterUser, FreshUser, Registering, role_for, is_first_user, new_user, register,
  verification_mail, user_register,
}

module _ (services : Services) (users : Table User) (tenants : Table Tenant)
    (find_role : String → Option String) (workspace_of : Option String → String → String) where
  abbrev pub founder : FreshUser → RegisterUser → Tenant
  founder fresh dto = record {
    id = fresh.tenant_id;
    name = workspace_of dto.name (services.normal_email dto.email);
  }

  -- The new row of a registration from `s` to `s'`.
  pub record Registered (fresh : FreshUser) (dto : RegisterUser)
      (s s' : Registering services users tenants find_role workspace_of) (u : User) : Type 0 where
    pub confirmed : (dto.password == dto.password_confirm) ≡ true
    pub free : users.find_first (λ x. x.email == services.normal_email dto.email) s.users ≡ none
    pub role :
        find_role (role_for (is_first_user services users tenants find_role workspace_of s))
        ≡ u.global_role_id
    pub unverified : (u.is_verified ≡ false) × (u.verification_token ≡ some fresh.code)
    pub credentials :
        (u.email ≡ services.normal_email dto.email) × (u.password ≡ services.hash dto.password)
    pub added : users.rows s'.users ≡ users.rows s.users ++ u ∷ []
    pub tenant_founded :
        is_first_user services users tenants find_role workspace_of s ≡ true
        → (u.tenant_id ≡ some fresh.tenant_id)
          × (tenants.rows s'.tenants ≡ tenants.rows s.tenants ++ founder fresh dto ∷ [])
    pub tenant_joined :
        is_first_user services users tenants find_role workspace_of s ≡ false
        → (t : Tenant) × (tenants.find_first (λ t. true) s.tenants ≡ some t)
          × (u.tenant_id ≡ some t.id)
          × (tenants.rows s'.tenants ≡ tenants.rows s.tenants)
    pub notified :
        s'.notices
        ≡ s.notices
          ++ verification_mail (services.normal_email dto.email) fresh.code
            ∷ user_register u.id
            ∷ []

  -- the row and the state that a registration ends with
  abbrev row : ℕ → FreshUser → RegisterUser → String → String → User
  row now fresh dto role tenant =
      new_user services users tenants find_role workspace_of now fresh
        (services.normal_email dto.email) dto.password role tenant

  abbrev end :
      FreshUser
      → RegisterUser
      → User
      → tenants.Store
      → Registering services users tenants find_role workspace_of
      → Registering services users tenants find_role workspace_of
  end fresh dto u store s = record {
    users = users.create u s.users;
    tenants = store;
    notices =
        s.notices
        ++ verification_mail (services.normal_email dto.email) fresh.code ∷ user_register u.id ∷ [];
  }

  module _ (now : ℕ) (fresh : FreshUser) (dto : RegisterUser)
      (s s' : Registering services users tenants find_role workspace_of) (u : User) where
    abbrev first : Bool
    first = is_first_user services users tenants find_role workspace_of s

    -- What is checked before a tenant is looked for, with the role that is found.
    record Checked : Type 0 where
      same : (dto.password == dto.password_confirm) ≡ true
      free : users.find_first (λ x. x.email == services.normal_email dto.email) s.users ≡ none
      role_id : String
      has_role : find_role (role_for first) ≡ some role_id

    register-Checked :
        register services users tenants find_role workspace_of now fresh dto s ≡ (ok u, s')
        → Checked
    unfolding register
    register-Checked h = elim (Option-cases (find_role (role_for first))) [
      | inl missing ↦ absurd (ground (arith, h, missing))
      | inr (role, has_role) ↦ record {
        same = ground (arith, h);
        free = ground (arith, h);
        role_id = role;
        has_role = has_role;
      }
    ]

    -- The tenant of the new user, and the tenants afterwards.
    register-tenant :
        (c : Checked)
        → register services users tenants find_role workspace_of now fresh dto s ≡ (ok u, s')
        → (id : String) × (store : tenants.Store) × (u ≡ row now fresh dto c.role_id id)
          × (s' ≡ end fresh dto u store s)
          × (first ≡ true
              → (id ≡ fresh.tenant_id) × (store ≡ tenants.create (founder fresh dto) s.tenants))
          × (first ≡ false
              → (t : Tenant) × (tenants.find_first (λ t. true) s.tenants ≡ some t)
                × (id ≡ t.id)
                × (store ≡ s.tenants))
    unfolding register
    register-tenant c h = elim (Bool-cases first) [
      | inl on ↦ (
        fresh.tenant_id,
        tenants.create (founder fresh dto) s.tenants,
        ground (arith, h, c.same, c.free, c.has_role, on),
        ground (arith, h, c.same, c.free, c.has_role, on),
        λ _. (refl, refl),
        λ off. absurd (cc (on, off)),
      )
      | inr off ↦ elim (Option-cases (tenants.find_first (λ t. true) s.tenants)) [
        | inl nowhere ↦ absurd (ground (arith, h, c.same, c.free, c.has_role, off, nowhere))
        | inr (t, oldest) ↦ (
          t.id,
          s.tenants,
          ground (arith, h, c.same, c.free, c.has_role, off, oldest),
          ground (arith, h, c.same, c.free, c.has_role, off, oldest),
          λ on. absurd (cc (on, off)),
          λ _. (t, oldest, refl, refl),
        )
      ]
    ]

    -- A registration succeeds only with equal passwords and an address that no user has. It adds one
    -- row, not verified, with the code that is mailed, as SUPERADMIN for the first user and as VIEWER
    -- for the others; the first user's tenant is a new one, the others' the oldest, and no other
    -- tenant is added.
    pub register-Registered :
        register services users tenants find_role workspace_of now fresh dto s ≡ (ok u, s')
        → Registered fresh dto s s' u
    register-Registered h =
        let c = register-Checked h in
        let (id, store, same_user, same_state, on, off) = register-tenant c h in
        record {
          confirmed = c.same;
          free = c.free;
          role = c.has_role ∙ sym (ap (λ (x : User). x.global_role_id) same_user);
          unverified = (
            ap (λ (x : User). x.is_verified) same_user,
            ap (λ (x : User). x.verification_token) same_user,
          );
          credentials =
              (ap (λ (x : User). x.email) same_user, ap (λ (x : User). x.password) same_user);
          added = ap (λ t. users.rows t.users) same_state ∙ users.rows-create u s.users;
          tenant_founded = λ is_first.
              let (same_id, same_store) = on is_first in
              (
                ap (λ (x : User). x.tenant_id) same_user ∙ ap some same_id,
                ap (λ t. tenants.rows t.tenants) same_state
                    ∙ ap tenants.rows same_store
                    ∙ tenants.rows-create (founder fresh dto) s.tenants,
              );
          tenant_joined = λ later.
              let (t, oldest, same_id, same_store) = off later in
              (
                t,
                oldest,
                ap (λ (x : User). x.tenant_id) same_user ∙ ap some same_id,
                ap (λ t. tenants.rows t.tenants) same_state ∙ ap tenants.rows same_store,
              );
          notified = ap (λ t. t.notices) same_state;
        }
