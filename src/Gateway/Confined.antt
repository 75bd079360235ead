-- ===== src/Gateway/Confined.antt =====
-- Which rooms a socket can be in, and what each message does to that. Some messages join a room
-- without a look at the tenant: `named` says which rooms a socket names in such messages.
pub mod Sequences
use live_ops_backend.Prelude.{
  ℕ, String, ◌==◌, ◌≡◌, Bool, true, false, List, [], ◌∷◌, Option, none, some, arith, ap, ◌∙◌,
  if◌then◌else◌, Option-cases, Bool-cases, inl, inr, eq_iff, eq_refl, subst, ◌⊎◌, sym, refl,
}
use live_ops_backend.Prelude.Map.{
  get, set, delete, add, remove, has, get-set, get-delete, has-add, has-remove,
}
use live_ops_backend.Gateway.{
  Client, Gateway, Hello, Verified, truthy_text, rooms_of, enter, is_foreign, handle_disconnect,
  greet, handle_connection, handle_production_join, handle_production_leave, handle_user_identify,
  handle_heartbeat, handle_identify_bridge, handle_ndi_bridge_register,
}

module _ (verify : String → Option Verified) (find_production : String → Option (Option String))
    (named : String → String → Bool) where
  -- the room of a production of the tenant, or one that the socket has named
  abbrev pub IsAllowed : String → String → String → Type 0
  IsAllowed c p t = (find_production p ≡ some (some t)) ⊎ (named c p ≡ true)

  -- A socket of a tenant is only in rooms of that tenant's productions, and in those it has named.
  abbrev pub IsConfined : Gateway → Type 0
  IsConfined s =
      (c p t : String) (d : Client)
      → get s.clients c ≡ some d
      → d.tenant_id ≡ some t
      → (t == "") ≡ false
      → has (rooms_of c s) p ≡ true
      → IsAllowed c p t

  handle_disconnect-IsConfined :
      (client : String) (s : Gateway) → IsConfined s → IsConfined (handle_disconnect client s)
  unfolding handle_disconnect
  handle_disconnect-IsConfined client s h c p t d g e good m =
      h c p t d (ground (arith, get-delete s.clients client c)) e good
        (ground (arith, g, get-delete s.clients client c, get-delete s.rooms client c, m))

  owner_of :
      (tenant owner : Option String) (t : String)
      → is_foreign tenant owner ≡ false
      → tenant ≡ some t
      → (t == "") ≡ false
      → owner ≡ some t
  owner_of none owner t own e good = absurd (cc e)
  owner_of (some u) none t own e good = ground (arith, own, e, good)
  owner_of (some u) (some x) t own e good = ground (arith, own, e, good, eq_iff x u)

  -- A socket that enters a room which it is allowed in; its data keeps the tenant.
  place-IsConfined :
      (client : String) (d e : Client) (p : String) (s : Gateway)
      → ((t : String) → d.tenant_id ≡ some t → (t == "") ≡ false → IsAllowed client p t)
      → e.tenant_id ≡ d.tenant_id
      → get s.clients client ≡ some d
      → IsConfined s
      → IsConfined (record s {
        rooms = set s.rooms client (add (rooms_of client s) p);
        clients = set s.clients client e;
      })
  place-IsConfined client d e p s allowed same_tenant known h c q t x g tenant_x good m =
      elim (Bool-cases (client == c)) [
        | inl here ↦
            let same : client ≡ c = (eq_iff client c).0 here in
            let tenant : d.tenant_id ≡ some t =
              sym same_tenant ∙ ground (arith, g, tenant_x, here, get-set s.clients client e c) in
            elim (Bool-cases (p == q)) [
              | inl at ↦
                  subst (λ b. IsAllowed b q t) same
                    (subst (λ k. IsAllowed client k t) ((eq_iff p q).0 at) (allowed t tenant good))
              | inr off ↦
                  subst (λ b. IsAllowed b q t) same
                    (h client q t d known tenant good (
                      ground (
                        arith,
                        same,
                        off,
                        m,
                        here,
                        get-set s.rooms client (add (rooms_of client s) p) c,
                        has-add (rooms_of client s) p q,
                      )))
            ]
        | inr there_ ↦
            h c q t x (ground (arith, g, there_, get-set s.clients client e c)) tenant_x good
              (ground (arith, m, there_, get-set s.rooms client (add (rooms_of client s) p) c))
      ]

  enter-IsConfined :
      (client : String) (d : Client) (p : String) (owner : Option String) (s : Gateway)
      → find_production p ≡ some owner
      → is_foreign d.tenant_id owner ≡ false
      → get s.clients client ≡ some d
      → IsConfined s
      → IsConfined (enter client d p s)
  enter-IsConfined client d p owner s found own known h =
      place-IsConfined client d (record d { production_id = some p }) p s
        (λ t tenant good. inl (found ∙ ap some (owner_of d.tenant_id owner t own tenant good))) refl
        known h

  -- joining a production keeps the sockets confined
  pub handle_production_join-IsConfined :
      (client : String) (d : Client) (p : String) (s : Gateway)
      → get s.clients client ≡ some d
      → IsConfined s
      → IsConfined (handle_production_join verify find_production client d p s)
  unfolding handle_production_join
  handle_production_join-IsConfined client d p s known h = elim (Option-cases (find_production p)) [
    | inl missed ↦ rw missed h
    | inr (owner, found) ↦ elim (Bool-cases (is_foreign d.tenant_id owner)) [
      | inl foreign ↦ rw (found, foreign) h
      | inr own ↦ rw (found, own) (enter-IsConfined client d p owner s found own known h)
    ]
  ]

  new_client-IsConfined :
      (client : String) (d : Client) (s : Gateway)
      → IsConfined s
      → IsConfined (record s { clients = set s.clients client d; rooms = delete s.rooms client })
  new_client-IsConfined client d s h c p t x g e good m =
      h c p t x (ground (arith, g, m, get-set s.clients client d c, get-delete s.rooms client c)) e
        good (ground (arith, m, get-delete s.rooms client c))

  greet-IsConfined :
      (now : ℕ) (client : String) (d : Client) (hello : Hello) (o : Option String) (s : Gateway)
      → get s.clients client ≡ some d
      → IsConfined s
      → IsConfined (greet verify find_production now client d hello o s)
  greet-IsConfined now client d hello none s known h = h
  greet-IsConfined now client d hello (some p) s known h = elim (Option-cases (find_production p)) [
    | inl missed ↦ rw missed (handle_disconnect-IsConfined client s h)
    | inr (owner, found) ↦ elim (Bool-cases (is_foreign d.tenant_id owner)) [
      | inl foreign ↦ rw (found, foreign) (handle_disconnect-IsConfined client s h)
      | inr own ↦ rw (found, own) (enter-IsConfined client d p owner s found own known h)
    ]
  ]

  -- so does a connection, accepted or refused
  pub handle_connection-IsConfined :
      (now : ℕ) (client : String) (token : Option String) (hello : Hello) (s : Gateway)
      → IsConfined s
      → IsConfined (handle_connection verify find_production now client token hello s)
  unfolding handle_connection
  handle_connection-IsConfined now client token hello s h =
      elim (Option-cases (truthy_text token)) [
        | inl none_ ↦ rw none_ (handle_disconnect-IsConfined client s h)
        | inr (k, given) ↦ rw given (elim (Option-cases (verify k)) [
          | inl bad ↦ rw bad (handle_disconnect-IsConfined client s h)
          | inr (v, good) ↦ rw good (
              let d : Client = record {
                user_id = v.sub;
                tenant_id = truthy_text v.tenant_id;
                production_id = none;
                is_ndi_bridge = false;
                bridge_name = none;
              } in
              greet-IsConfined now client d hello (truthy_text hello.production_id) _
                (get-set s.clients client d client
                  ∙ ap (λ (b : Bool). if b then some d else get s.clients client) (eq_refl client))
                (new_client-IsConfined client d s h))
        ])
      ]

  handle_production_leave-IsConfined :
      (client p : String) (s : Gateway)
      → IsConfined s
      → IsConfined (handle_production_leave client p s)
  unfolding handle_production_leave
  handle_production_leave-IsConfined client p s h c q t d g e good m = h c q t d g e good (
      ground (
        arith,
        m,
        eq_iff client c,
        get-set s.rooms client (remove (rooms_of client s) p) c,
        has-remove (rooms_of client s) p q,
      ))

  -- the messages that name a room without a check
  pub handle_user_identify-IsConfined :
      (now : ℕ) (client : String) (d : Client) (hello : Hello) (s : Gateway)
      → ((p : String) → truthy_text hello.production_id ≡ some p → named client p ≡ true)
      → get s.clients client ≡ some d
      → IsConfined s
      → IsConfined (handle_user_identify now client d hello s)
  unfolding handle_user_identify
  handle_user_identify-IsConfined now client d hello s names known h =
      elim (Option-cases (truthy_text hello.production_id)) [
        | inl none_ ↦ rw none_ h
        | inr (p, given) ↦ rw given (
            place-IsConfined client d (record d { production_id = some p }) p s
              (λ t tenant good. inr (names p given)) refl known h)
      ]

  pub handle_identify_bridge-IsConfined :
      (client : String) (d : Client) (name p : String) (s : Gateway)
      → named client p ≡ true
      → get s.clients client ≡ some d
      → IsConfined s
      → IsConfined (handle_identify_bridge client d name p s)
  unfolding handle_identify_bridge
  handle_identify_bridge-IsConfined client d name p s names known h =
      place-IsConfined client d _ p s (λ t tenant good. inr names) refl known h

  pub handle_ndi_bridge_register-IsConfined :
      (client : String) (d : Client) (p : String) (s : Gateway)
      → named client p ≡ true
      → get s.clients client ≡ some d
      → IsConfined s
      → IsConfined (handle_ndi_bridge_register client d p s)
  unfolding handle_ndi_bridge_register
  handle_ndi_bridge_register-IsConfined client d p s names known h =
      place-IsConfined client d _ p s (λ t tenant good. inr names) refl known h
