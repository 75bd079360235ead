-- ===== src/Obs/Connected.antt =====
-- When a production has an instance to talk to, and what its reported state says of it.
use live_ops_backend.Prelude.{
  String, ◌==◌, ◌≡◌, refl, true, List, [], ◌∷◌, Option, none, some, arith, Option-cases, Bool-cases,
  inl, inr, In, here, there, is_some, ◌⊎◌, sym, subst,
}
use live_ops_backend.Prelude.Map.{Map, get}
use live_ops_backend.Obs.{
  ObsInstance, ObsStateStore, truthy, get_production_connection_ids, get_primary, if_connected,
  first_connected, via_primary, get_instance, first_present, shown, watched, get_obs_state,
}

module _ {Socket LastState : Type 0} where
  -- A connection that is there and connected, with its socket.
  pub record Live (m : Map (ObsInstance Socket LastState)) (id : String) (o : Socket) : Type 0 where
    pub held : ObsInstance Socket LastState
    pub found : get m id ≡ some held
    pub connected : held.is_connected ≡ true
    pub socket : held.obs ≡ o

  if_connected_sound :
      (m : Map (ObsInstance Socket LastState)) (id : String) (other : Option Socket) (o : Socket)
      → if_connected (get m id) other ≡ some o
      → Live m id o ⊎ (other ≡ some o)
  if_connected_sound m id other o h = elim (Option-cases (get m id)) [
    | inl missed ↦ inr (rw missed at h)
    | inr (i, found) ↦ elim (Bool-cases i.is_connected) [
      | inl on ↦
          inl (record {
            held = i;
            found = found;
            connected = on;
            socket = same (rw (found, on) at h);
          })
      | inr off ↦ inr (rw (found, off) at h)
    ]
  ]
    where
      same : {a b : Socket} → some a ≡ some b → a ≡ b
      same e = cc

  first_connected_sound :
      (m : Map (ObsInstance Socket LastState)) (ids : List String) (o : Socket)
      → first_connected m ids ≡ some o
      → (id : String) × In id ids × Live m id o
  unfolding first_connected
  first_connected_sound m [] o h = cc
  first_connected_sound m (id ∷ ids) o h =
      elim (if_connected_sound m id (first_connected m ids) o h) [
        | inl live ↦ (id, here, live)
        | inr later ↦
            let (id', m', live) = first_connected_sound m ids o later in (id', there m', live)
      ]

  -- The instance that a production gets is connected, and is its primary or one of its connections.
  pub get_instance-Live :
      (p : String) (s : ObsStateStore (ObsInstance Socket LastState)) (o : Socket)
      → get_instance p s ≡ some o
      → (id : String) × ((get_primary p s ≡ some id) ⊎ In id (get_production_connection_ids p s))
        × Live s.connections id o
  unfolding get_instance
  get_instance-Live p s o h =
      by_primary (get_primary p s) (get_production_connection_ids p s) refl refl h
    where
      from_set :
          (ids : List String)
          → ids ≡ get_production_connection_ids p s
          → first_connected s.connections ids ≡ some o
          → (id : String) × ((get_primary p s ≡ some id)
              ⊎ In id (get_production_connection_ids p s))
            × Live s.connections id o
      from_set ids same found =
          let (id, m, live) = first_connected_sound s.connections ids o found in
          (id, inr (subst (In id) same m), live)

      by_primary :
          (primary : Option String) (ids : List String)
          → primary ≡ get_primary p s
          → ids ≡ get_production_connection_ids p s
          → via_primary s.connections (truthy primary) (first_connected s.connections ids) ≡ some o
          → (id : String) × ((get_primary p s ≡ some id)
              ⊎ In id (get_production_connection_ids p s))
            × Live s.connections id o
      by_primary none ids is same found = from_set ids same found
      by_primary (some k) ids is same found = elim (Bool-cases (k == "")) [
        | inl blank ↦ from_set ids same (rw blank at found)
        | inr named ↦
            elim (if_connected_sound s.connections k (first_connected s.connections ids) o
              (rw named at found)) [
                | inl live ↦ (k, inl (sym is), live)
                | inr later ↦ from_set ids same later
              ]
      ]

  first_connected_complete :
      (m : Map (ObsInstance Socket LastState)) (ids : List String) (id : String) (o : Socket)
      → In id ids
      → Live m id o
      → is_some (first_connected m ids) ≡ true
  unfolding first_connected
  first_connected_complete m [] id o i live = elim i [ ]
  first_connected_complete m (_ ∷ ids) id o here live = rw (live.found, live.connected) refl
  first_connected_complete m (x ∷ ids) id o (there i) live =
      let ih = first_connected_complete m ids id o i live in
      elim (Option-cases (get m x)) [
        | inl missed ↦ rw missed ih
        | inr (held, found) ↦ elim (Bool-cases held.is_connected) [
          | inl on ↦ rw (found, on) refl
          | inr off ↦ rw (found, off) ih
        ]
      ]

  -- A production with a connected connection has an instance, whatever its primary is.
  pub get_instance_complete :
      (p : String) (s : ObsStateStore (ObsInstance Socket LastState)) (id : String) (o : Socket)
      → In id (get_production_connection_ids p s)
      → Live s.connections id o
      → is_some (get_instance p s) ≡ true
  unfolding get_instance
  get_instance_complete p s id o i live =
      by_primary (get_primary p s) _
        (first_connected_complete s.connections (get_production_connection_ids p s) id o i live)
    where
      by_primary :
          (primary : Option String) (other : Option Socket)
          → is_some other ≡ true
          → is_some (via_primary s.connections (truthy primary) other) ≡ true
      by_primary none other h = h
      by_primary (some k) other h = elim (Bool-cases (k == "")) [
        | inl blank ↦ rw blank h
        | inr named ↦ elim (Option-cases (get s.connections k)) [
          | inl missed ↦ rw (named, missed) h
          | inr (x, found) ↦ elim (Bool-cases x.is_connected) [
            | inl on ↦ rw (named, found, on) refl
            | inr off ↦ rw (named, found, off) h
          ]
        ]
      ]

  first_present-first_connected :
      (m : Map (ObsInstance Socket LastState)) (ids : List String)
      → (shown (first_present m ids)).is_connected ≡ true
      → is_some (first_connected m ids) ≡ true
  unfolding first_present first_connected
  first_present-first_connected m [] h = cc
  first_present-first_connected m (id ∷ ids) h = elim (Option-cases (get m id)) [
    | inl missed ↦ rw missed (first_present-first_connected m ids (ground (arith, h, missed)))
    | inr (x, found) ↦ ground (arith, h, found)
  ]

  -- A production whose reported state is connected has an instance.
  pub get_obs_state-get_instance :
      (p : String) (s : ObsStateStore (ObsInstance Socket LastState))
      → (get_obs_state p s).is_connected ≡ true
      → is_some (get_instance p s) ≡ true
  unfolding get_instance get_obs_state
  get_obs_state-get_instance p s h = by_primary (get_primary p s) h
    where
      by_primary :
          (primary : Option String)
          → (shown (
              watched s.connections
                (truthy primary)
                (get_production_connection_ids p s))).is_connected
            ≡ true
          → is_some (
              via_primary s.connections
                (truthy primary)
                (first_connected s.connections (get_production_connection_ids p s)))
            ≡ true
      by_primary none h =
          first_present-first_connected s.connections (get_production_connection_ids p s) h
      by_primary (some k) h = elim (Bool-cases (k == "")) [
        | inl blank ↦ rw blank (
            first_present-first_connected s.connections (get_production_connection_ids p s)
              (rw blank at h))
        | inr named ↦ elim (Option-cases (get s.connections k)) [
          | inl missed ↦ absurd (cc (rw (named, missed) at h))
          | inr (x, found) ↦ rw (named, found, (rw (named, found) at h)) refl
        ]
      ]
