-- ===== src/Gateway/Confined/Sequences.antt =====
-- All the messages that join or leave a room or write a socket's data, one after another.
use live_ops_backend.Prelude.{
  ℕ, String, ◌==◌, ◌≡◌, Bool, true, false, ◌&&◌, List, [], ◌∷◌, Option, none, some, arith,
  Option-cases, Bool-cases, inl, inr, any, eq_refl, eq_iff, refl, ap,
}
use live_ops_backend.Prelude.Map.{get, set, add, has, get-set, has-add}
use live_ops_backend.Gateway.{
  Client, Gateway, Hello, Verified, truthy_text, rooms_of, joined, handle_disconnect,
  handle_connection, handle_production_join, handle_production_leave, handle_user_identify,
  handle_heartbeat, handle_identify_bridge, handle_ndi_bridge_register,
}
use live_ops_backend.Gateway.Confined.{
  IsConfined, handle_disconnect-IsConfined, handle_connection-IsConfined,
  handle_production_join-IsConfined, handle_production_leave-IsConfined,
  handle_user_identify-IsConfined, handle_identify_bridge-IsConfined,
  handle_ndi_bridge_register-IsConfined,
}

pub data Signal : Type 0 where
  connects : ℕ → String → Option String → Hello → Signal
  disconnects : String → Signal
  joins leaves : String → String → Signal
  beats : ℕ → String → Signal
  -- `user.identify`
  identifies : ℕ → String → Hello → Signal
  -- `ndi.identify_bridge`: socket, bridge and production
  identifies_bridge : String → String → String → Signal
  -- `ndi.bridge_register`
  registers : String → String → Signal

abbrev pub is_text : Option String → String → Bool
is_text none p = false
is_text (some q) p = q == p

-- the socket names the production in a message that is not checked
abbrev pub names : String → String → Signal → Bool
names c p (identifies now client hello) = client == c && is_text (truthy_text hello.production_id) p
names c p (identifies_bridge client name q) = client == c && q == p
names c p (registers client q) = client == c && q == p
names c p _ = false

abbrev pub is_named : List Signal → String → String → Bool
is_named xs c p = any (names c p) xs

abbrev pub never : String → String → Bool
never c p = false

-- what the guard lets through: a socket with data
abbrev pub guarded : Option Client → (Client → Gateway → Gateway) → Gateway → Gateway
guarded none f s = s
guarded (some d) f s = f d s

module _ (verify : String → Option Verified)
    (find_production : String → Option (Option String)) where
  abbrev pub receive : Signal → Gateway → Gateway
  receive (connects now client token hello) s =
      handle_connection verify find_production now client token hello s
  receive (disconnects client) s = handle_disconnect client s
  receive (joins client p) s =
      guarded (get s.clients client) (λ d. handle_production_join verify find_production client d p)
        s
  receive (leaves client p) s =
      guarded (get s.clients client) (λ d. handle_production_leave client p) s
  receive (beats now client) s = guarded (get s.clients client) (λ d. handle_heartbeat now client) s
  receive (identifies now client hello) s =
      guarded (get s.clients client) (λ d. handle_user_identify now client d hello) s
  receive (identifies_bridge client name p) s =
      guarded (get s.clients client) (λ d. handle_identify_bridge client d name p) s
  receive (registers client p) s =
      guarded (get s.clients client) (λ d. handle_ndi_bridge_register client d p) s

  abbrev pub receive_all : List Signal → Gateway → Gateway
  receive_all [] s = s
  receive_all (x ∷ xs) s = receive_all xs (receive x s)

  module _ (named : String → String → Bool) where
    guarded-IsConfined :
        (client : String) (f : Client → Gateway → Gateway) (s : Gateway)
        → ((d : Client)
            → get s.clients client ≡ some d
            → IsConfined verify find_production named (f d s))
        → IsConfined verify find_production named s
        → IsConfined verify find_production named (guarded (get s.clients client) f s)
    guarded-IsConfined client f s each h = elim (Option-cases (get s.clients client)) [
      | inl unknown ↦ rw unknown h
      | inr (d, known) ↦ rw known (each d known)
    ]

    receive-IsConfined :
        (x : Signal) (s : Gateway)
        → ((c p : String) → names c p x ≡ true → named c p ≡ true)
        → IsConfined verify find_production named s
        → IsConfined verify find_production named (receive x s)
    unfolding handle_heartbeat
    receive-IsConfined (connects now client token hello) s covered h =
        handle_connection-IsConfined verify find_production named now client token hello s h
    receive-IsConfined (disconnects client) s covered h =
        handle_disconnect-IsConfined verify find_production named client s h
    receive-IsConfined (joins client p) s covered h =
        guarded-IsConfined client _ s
          (λ d known.
            handle_production_join-IsConfined verify find_production named client d p s known h)
          h
    receive-IsConfined (leaves client p) s covered h =
        guarded-IsConfined client _ s
          (λ d known. handle_production_leave-IsConfined verify find_production named client p s h)
          h
    receive-IsConfined (beats now client) s covered h =
        guarded-IsConfined client _ s (λ d known. h) h
    receive-IsConfined (identifies now client hello) s covered h =
        guarded-IsConfined client _ s
          (λ d known.
            handle_user_identify-IsConfined verify find_production named now client d hello s
              (λ p given. covered client p (rw (given, eq_refl client, eq_refl p) refl)) known h)
          h
    receive-IsConfined (identifies_bridge client name p) s covered h =
        guarded-IsConfined client _ s
          (λ d known.
            handle_identify_bridge-IsConfined verify find_production named client d name p s
              (covered client p (rw (eq_refl client, eq_refl p) refl)) known h)
          h
    receive-IsConfined (registers client p) s covered h =
        guarded-IsConfined client _ s
          (λ d known.
            handle_ndi_bridge_register-IsConfined verify find_production named client d p s
              (covered client p (rw (eq_refl client, eq_refl p) refl)) known h)
          h

    receive_all-IsConfined :
        (xs : List Signal) (s : Gateway)
        → ((c p : String) → is_named xs c p ≡ true → named c p ≡ true)
        → IsConfined verify find_production named s
        → IsConfined verify find_production named (receive_all xs s)
    receive_all-IsConfined [] s covered h = h
    receive_all-IsConfined (x ∷ xs) s covered h =
        receive_all-IsConfined xs (receive x s) (λ c p later. covered c p (ground (arith, later)))
          (receive-IsConfined x s (λ c p now. covered c p (rw now refl)) h)

  both : (a b : Bool) → (a && b) ≡ true → (a ≡ true) × (b ≡ true)
  both a b h = (ground (arith, h), ground (arith, h))

  named_text : (o : Option String) (p : String) → is_text o p ≡ true → o ≡ some p
  named_text none p h = cc h
  named_text (some q) p h = ap some ((eq_iff q p).0 h)

  entered :
      (c p : String) (s : Gateway)
      → has (joined (get (set s.rooms c (add (rooms_of c s) p)) c)) p ≡ true
  entered c p s = ground (
    arith,
    get-set s.rooms c (add (rooms_of c s) p) c,
    eq_refl c,
    has-add (rooms_of c s) p p,
    eq_refl p,
  )

  names-enters :
      (x : Signal) (s : Gateway) (c p : String) (d : Client)
      → get s.clients c ≡ some d
      → names c p x ≡ true
      → has (rooms_of c (receive x s)) p ≡ true
  unfolding handle_user_identify handle_identify_bridge handle_ndi_bridge_register
  names-enters (connects now client token hello) s c p d known said = cc said
  names-enters (disconnects client) s c p d known said = cc said
  names-enters (joins client q) s c p d known said = cc said
  names-enters (leaves client q) s c p d known said = cc said
  names-enters (beats now client) s c p d known said = cc said
  names-enters (identifies now client hello) s c p d known said =
      let (same, text) = both (client == c) (is_text (truthy_text hello.production_id) p) said in
      rw ((eq_iff client c).0 same, known, named_text (truthy_text hello.production_id) p text)
        (entered c p s)
  names-enters (identifies_bridge client name q) s c p d known said =
      let (same, room) = both (client == c) (q == p) said in
      rw ((eq_iff client c).0 same, (eq_iff q p).0 room, known) (entered c p s)
  names-enters (registers client q) s c p d known said =
      let (same, room) = both (client == c) (q == p) said in
      rw ((eq_iff client c).0 same, (eq_iff q p).0 room, known) (entered c p s)

  pub record AllConfined (named : String → String → Bool) (s : Gateway) : Type 0 where
    pub confined : IsConfined verify find_production named s

  -- From a state in which every socket of a tenant is in rooms of that tenant's productions only, any
  -- sequence of messages: every socket of a tenant is in such rooms and in those it named in a
  -- `user.identify`, an `ndi.identify_bridge` or an `ndi.bridge_register` of the sequence.
  pub receive_all-AllConfined :
      (xs : List Signal) (s : Gateway)
      → AllConfined never s
      → AllConfined (is_named xs) (receive_all xs s)
  receive_all-AllConfined xs s h = record {
    confined =
        receive_all-IsConfined (is_named xs) xs s (λ c p e. e)
          (λ c p t d g e good m. elim (h.confined c p t d g e good m) [
            | inl own ↦ inl own
            | inr said ↦ absurd (cc said)
          ]);
  }

  -- A socket of a tenant, after messages in which it has not named a production that is not the
  -- tenant's, the joins that it may have tried included, is not in that production's room; after one
  -- message more that names it, it is.
  pub foreign_room_entered :
      (xs : List Signal) (x : Signal) (s : Gateway) (c p t : String) (d : Client)
      → AllConfined never s
      → is_named xs c p ≡ false
      → get (receive_all xs s).clients c ≡ some d
      → d.tenant_id ≡ some t
      → (t == "") ≡ false
      → (find_production p ≡ some (some t) → ⊥)
      → names c p x ≡ true
      → (has (rooms_of c (receive_all xs s)) p ≡ false)
        × (has (rooms_of c (receive x (receive_all xs s))) p ≡ true)
  foreign_room_entered xs x s c p t d h unnamed known tenant good foreign said = (
    elim (Bool-cases (has (rooms_of c (receive_all xs s)) p)) [
      | inr out ↦ out
      | inl in_ ↦ elim ((receive_all-AllConfined xs s h).confined c p t d known tenant good in_) [
        | inl own ↦ absurd (foreign own)
        | inr by_name ↦ absurd (cc (unnamed, by_name))
      ]
    ],
    names-enters x (receive_all xs s) c p d known said,
  )
