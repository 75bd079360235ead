-- ===== src/Guest/Calls.antt =====
-- The calls of src/guest/guest.service.ts. Time is an argument in milliseconds.
pub mod OnAir
use live_ops_backend.Prelude.{
  ℕ, ◌+◌, ◌*◌, String, ◌==◌, Bool, true, false, not, ◌&&◌, ◌||◌, List, [], ◌∷◌, ◌++◌, Option, none,
  some, Outcome, ok, throw, not_found, bad_request, record_missing, M, World, ◌>>=◌, ◌>>◌, throw_if,
  require, return, raise, reads, writes, emit, if◌then◌else◌, ltb, get_or, is_some, find,
}
use live_ops_backend.Prelude.Map.{Map, get, set}
use live_ops_backend.Prelude.Table.{Table}
use live_ops_backend.Guest.{
  InviteStatus, pending, active, used, GuestSlotStatus, free, preview, program, Engine, obs, vmix,
  Label, given, numbered, GuestInvitation, GuestSlotConfig, GuestSlot, Command, vmix_select_input,
  vmix_cut, change_scene, Event, slots_updated, return_feed_updated, command_sent, GuestDb,
  no_config, merge, with_status, config_of, put_on_air, slots_of, slots_from, is_used,
}

-- what a valid token stands for: its invitation, or the production of a public link
pub data Pass : Type 0 where
  invited : GuestInvitation → Pass
  public : String → Pass

abbrev pub listed_of : String → GuestInvitation → Bool
listed_of p i = i.production_id == p && not (is_used i.status)

-- one day
abbrev pub day_ms : ℕ
day_ms = 24 * 60 * 60 * 1000

abbrev pub new_invitation :
    ℕ → String → String → String → Option String → Option ℕ → GuestInvitation
new_invitation now id token p guest_name expires_at = record {
  id = id;
  token = token;
  guest_name = guest_name;
  production_id = p;
  status = pending;
  expires_at = get_or expires_at (now + day_ms);
}

abbrev pub find_slot : String → List GuestSlot → Option GuestSlot
find_slot id slots = find (λ s. s.slot_id == id) slots

-- whether a patch changes what the reporter hears
abbrev pub is_heard : GuestSlotConfig → Bool
is_heard patch =
    is_some patch.return_feed || (is_some patch.ifb_volume || is_some patch.program_return_volume)

-- `!slot.obsScene`
abbrev pub is_blank : Label → Bool
is_blank (given t) = t == ""
is_blank (numbered n) = false

module _ (invitations : Table GuestInvitation)
    -- `production.findUnique`, its engine
    (find_production : String → Option Engine)
    -- `streamingService.handleCommand`
    (commands : String → Command → Outcome (Unit {0})) where
  abbrev pub Guests : Type 0
  Guests = World (GuestDb invitations.Store) Event

  abbrev pub find_invitation : (GuestInvitation → Bool) → M Guests (Option GuestInvitation)
  find_invitation p = reads (λ w. invitations.find_first p w.db.invitations)

  abbrev pub get_envelope : String → M Guests (Map GuestSlotConfig)
  get_envelope p = reads (λ w. slots_of p w.db.configs)

  abbrev pub save_envelope : String → Map GuestSlotConfig → M Guests (Unit {0})
  save_envelope p slots =
      writes (λ w. record w { db = record w.db { configs = (p, slots) ∷ w.db.configs } })

  unfoldable pub get_guest_slots : String → M Guests (List GuestSlot)
  get_guest_slots p = do
    engine ← require (find_production p) (not_found "Producción no encontrada")
    rows ← reads (λ w. invitations.find_many (listed_of p) w.db.invitations)
    slots ← get_envelope p
    return (slots_from engine slots 1 rows)

  unfoldable pub emit_slots_updated : String → M Guests (Unit {0})
  unfolding get_guest_slots
  emit_slots_updated p = do slots ← get_guest_slots p; emit (slots_updated p slots)

  -- `id` and `token` are the new row's
  unfoldable pub create_invitation :
      ℕ → String → String → String → Option String → Option ℕ → M Guests GuestInvitation
  unfolding emit_slots_updated
  create_invitation now id token p guest_name expires_at = do
    require (find_production p) (not_found "Producción no encontrada")
    let i = new_invitation now id token p guest_name expires_at
    writes
        (λ w. record w { db = record w.db { invitations = invitations.create i w.db.invitations } })
    emit_slots_updated p
    return i

  abbrev pub check_expiry : ℕ → GuestInvitation → M Guests Pass
  check_expiry now i = do
    throw_if (ltb i.expires_at now) (bad_request "El enlace de invitado ha expirado")
    return (invited i)

  abbrev pub public_link : String → Option Engine → M Guests Pass
  public_link token none = raise (not_found "Enlace de invitado no encontrado o inválido")
  public_link token (some engine) = return (public token)

  abbrev pub check_found : ℕ → String → Option GuestInvitation → M Guests Pass
  check_found now token none = public_link token (find_production token)
  check_found now token (some i) = check_expiry now i

  unfoldable pub validate_token : ℕ → String → M Guests Pass
  validate_token now token = do
    found ← find_invitation (λ i. i.token == token)
    check_found now token found

  abbrev pub update_invitation :
      String → (GuestInvitation → GuestInvitation) → M Guests GuestInvitation
  update_invitation id f w = elim (invitations.update id f w.db.invitations) [
    | none ↦ (throw record_missing, w)
    | some (i, store) ↦ (ok i, record w { db = record w.db { invitations = store } })
  ]

  abbrev pub delete_invitation : String → M Guests (Unit {0})
  delete_invitation id w = elim (invitations.delete id w.db.invitations) [
    | none ↦ (throw record_missing, w)
    | some store ↦ (ok tt, record w { db = record w.db { invitations = store } })
  ]

  abbrev pub activate_row : Pass → M Guests Pass
  activate_row (public p) = return (public p)
  activate_row (invited i) = do
    row ← update_invitation i.id (λ row. record row { status = active })
    emit_slots_updated i.production_id
    return (invited row)

  -- the errors are logged and thrown again
  unfoldable pub activate_guest : ℕ → String → M Guests Pass
  unfolding validate_token emit_slots_updated
  activate_guest now token = do pass ← validate_token now token; activate_row pass

  -- `if (envelope.slots[invitation.id])`
  abbrev pub free_slot : GuestInvitation → Map GuestSlotConfig → M Guests (Unit {0})
  free_slot i slots = elim (get slots i.id) [
    | none ↦ return tt
    | some c ↦ save_envelope i.production_id (set slots i.id (with_status free c))
  ]

  unfoldable pub release_invitation : GuestInvitation → M Guests (Unit {0})
  unfolding emit_slots_updated
  release_invitation i = do
    delete_invitation i.id
    slots ← get_envelope i.production_id
    free_slot i slots
    emit_slots_updated i.production_id

  abbrev pub end_public : Option Engine → M Guests (Unit {0})
  end_public none = raise (not_found "Token de invitado inválido")
  end_public (some engine) = return tt

  abbrev pub finalize_found : String → Option GuestInvitation → M Guests (Unit {0})
  finalize_found token none = end_public (find_production token)
  finalize_found token (some i) = release_invitation i

  unfoldable pub finalize_guest : String → M Guests (Unit {0})
  unfolding release_invitation
  finalize_guest token = do
    found ← find_invitation (λ i. i.token == token)
    finalize_found token found

  unfoldable pub finalize_guest_by_id : String → String → M Guests (Unit {0})
  unfolding release_invitation
  finalize_guest_by_id p id = do
    found ← find_invitation (λ i. i.id == id && i.production_id == p)
    i ← require found (not_found "Invitación no encontrada")
    release_invitation i

  unfoldable pub list_invitations : String → M Guests (List GuestInvitation)
  list_invitations p = do
    require (find_production p) (not_found "Producción no encontrada")
    reads (λ w. invitations.find_many (listed_of p) w.db.invitations)

  abbrev pub emit_return_feed : String → GuestSlotConfig → Option GuestSlot → M Guests (Unit {0})
  emit_return_feed p patch none = return tt
  emit_return_feed p patch (some s) =
      if is_heard patch then emit (return_feed_updated p s) else return tt

  unfoldable pub update_guest_slot : String → String → GuestSlotConfig → M Guests (Option GuestSlot)
  unfolding emit_slots_updated get_guest_slots
  update_guest_slot p id patch = do
    found ← find_invitation (λ i. i.id == id && i.production_id == p)
    require found (not_found "Slot de invitado no encontrado")
    slots ← get_envelope p
    save_envelope p (set slots id (merge (config_of slots id) patch))
    shown ← get_guest_slots p
    emit_return_feed p patch (find_slot id shown)
    emit_slots_updated p
    return (find_slot id shown)

  abbrev pub send : String → Command → M Guests (Unit {0})
  send p c w = elim (commands p c) [ throw e ↦ (throw e, w) | ok _ ↦ emit (command_sent p c) w ]

  abbrev pub preview_command : String → GuestSlot → Engine → M Guests (Unit {0})
  preview_command p s vmix = send p (vmix_select_input s.vmix_input)
  preview_command p s obs = return tt

  unfoldable pub take_guest_preview : String → String → M Guests (Option GuestSlot)
  unfolding get_guest_slots update_guest_slot
  take_guest_preview p id = do
    shown ← get_guest_slots p
    s ← require (find_slot id shown) (not_found "Slot de invitado no encontrado")
    preview_command p s s.engine_type
    update_guest_slot p id (with_status preview no_config)

  abbrev pub program_command : String → GuestSlot → Engine → M Guests (Unit {0})
  program_command p s vmix = do send p (vmix_select_input s.vmix_input); send p vmix_cut
  program_command p s obs = do
    throw_if (is_blank s.obs_scene) (bad_request "El slot no tiene escena OBS configurada")
    send p (change_scene s.obs_scene)

  unfoldable pub take_guest_program : String → String → M Guests (Option GuestSlot)
  unfolding get_guest_slots emit_slots_updated put_on_air
  take_guest_program p id = do
    shown ← get_guest_slots p
    s ← require (find_slot id shown) (not_found "Slot de invitado no encontrado")
    program_command p s s.engine_type
    slots ← get_envelope p
    save_envelope p (put_on_air id slots)
    emit_slots_updated p
    updated ← get_guest_slots p
    return (find_slot id updated)
