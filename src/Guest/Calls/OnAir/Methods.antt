-- ===== src/Guest/Calls/OnAir/Methods.antt =====
-- Every call leaves at most one slot of a production on air.
use live_ops_backend.Prelude.{
  ℕ, String, ◌==◌, ◌&&◌, ◌≡◌, refl, Bool, true, false, List, Option, none, some, Outcome, ok, throw,
  not_found, bad_request, M, ◌>>=◌, reads, writes, emit, Bool-cases, Option-cases, inl, inr,
}
use live_ops_backend.Prelude.Map.{Map, get, set}
use live_ops_backend.Prelude.Table.{Table}
use live_ops_backend.Guest.{
  Engine, obs, vmix, GuestInvitation, GuestSlotConfig, GuestSlot, Command, free, preview,
  with_status, config_of, is_program, merge, no_config, put_on_air, slots_of, or_old, slots_from,
  command_sent, return_feed_updated, vmix_select_input, vmix_cut, change_scene, GuestSlotStatus,
  slots_updated,
}
use live_ops_backend.Guest.Calls.{
  Pass, invited, public, Guests, find_invitation, get_envelope, save_envelope, get_guest_slots,
  emit_slots_updated, create_invitation, public_link, check_found, validate_token,
  update_invitation, delete_invitation, activate_row, activate_guest, free_slot, release_invitation,
  finalize_found, finalize_guest, finalize_guest_by_id, find_slot, emit_return_feed, is_heard,
  update_guest_slot, send, preview_command, take_guest_preview, program_command, take_guest_program,
  listed_of, new_invitation, is_blank,
}
use live_ops_backend.Guest.Calls.OnAir.Kept.{
  IsSafe, bind-IsSafe, require-IsSafe, throw_if-IsSafe, return-IsSafe, raise-IsSafe, emit-IsSafe,
  AllOneOnAir,
}
use live_ops_backend.Guest.Calls.OnAir.{on_air, OneOnAir, set-OneOnAir, put_on_air-OneOnAir}

module _ (invitations : Table GuestInvitation) (find_production : String → Option Engine)
    (commands : String → Command → Outcome (Unit {0})) where
  abbrev S : Type 0
  S = Guests invitations find_production commands

  save_envelope-IsSafe :
      (p : String) (slots : Map GuestSlotConfig)
      → OneOnAir slots
      → IsSafe (save_envelope invitations find_production commands p slots)
  unfolding slots_of
  save_envelope-IsSafe p slots new = record {
    keeps = λ w old. record {
      one = λ q. elim (Bool-cases (p == q)) [ inl e ↦ rw e new | inr e ↦ rw e (old.one q) ];
    };
  }

  -- The configuration that is read has at most one slot on air.
  get_envelope-IsSafe :
      {B : Type 0} (p : String) (k : Map GuestSlotConfig → M S B)
      → ((slots : Map GuestSlotConfig) → OneOnAir slots → IsSafe (k slots))
      → IsSafe (get_envelope invitations find_production commands p >>= k)
  get_envelope-IsSafe p k rest = record {
    keeps = λ w one. (rest (slots_of p w.db.configs) (one.one p)).keeps w one;
  }

  rows-IsSafe :
      (q : GuestInvitation → Bool) → IsSafe (reads (λ w. invitations.find_many q w.db.invitations))
  rows-IsSafe q = record { keeps = λ w one. one }

  find_invitation-IsSafe :
      (q : GuestInvitation → Bool) → IsSafe (find_invitation invitations find_production commands q)
  find_invitation-IsSafe q = record { keeps = λ w one. one }

  get_guest_slots-IsSafe :
      (p : String) → IsSafe (get_guest_slots invitations find_production commands p)
  unfolding get_guest_slots
  get_guest_slots-IsSafe p = bind-IsSafe {A = Engine} _ _ (require-IsSafe _ _) (λ engine.
      bind-IsSafe {A = List GuestInvitation} _ _ (rows-IsSafe (listed_of p)) (λ rows.
        get_envelope-IsSafe p _ (λ slots one. return-IsSafe (slots_from engine slots 1 rows))))

  emit_slots_updated-IsSafe :
      (p : String) → IsSafe (emit_slots_updated invitations find_production commands p)
  unfolding emit_slots_updated
  emit_slots_updated-IsSafe p =
      bind-IsSafe {A = List GuestSlot} _ _ (get_guest_slots-IsSafe p)
        (λ slots. emit-IsSafe (slots_updated p slots))

  -- changes of the rows only
  update_invitation-IsSafe :
      (id : String) (f : GuestInvitation → GuestInvitation)
      → IsSafe (update_invitation invitations find_production commands id f)
  update_invitation-IsSafe id f = record {
    keeps = λ w one. elim (Option-cases (invitations.update id f w.db.invitations)) [
      | inl missed ↦ rw (update_invitation, missed) one
      | inr ((i, store), done) ↦ rw (update_invitation, done) (record { one = one.one })
    ];
  }

  delete_invitation-IsSafe :
      (id : String) → IsSafe (delete_invitation invitations find_production commands id)
  delete_invitation-IsSafe id = record {
    keeps = λ w one. elim (Option-cases (invitations.delete id w.db.invitations)) [
      | inl missed ↦ rw (delete_invitation, missed) one
      | inr (store, done) ↦ rw (delete_invitation, done) (record { one = one.one })
    ];
  }

  create_row-IsSafe :
      (i : GuestInvitation)
      → IsSafe (
          writes (λ w. record w {
            db = record w.db { invitations = invitations.create i w.db.invitations };
          }))
  create_row-IsSafe i = record { keeps = λ w one. record { one = one.one } }

  send-IsSafe : (p : String) (c : Command) → IsSafe (send invitations find_production commands p c)
  send-IsSafe p c = record { keeps = λ w one. sent (commands p c) w one }
    where
      sent :
          (o : Outcome (Unit {0})) (w : S)
          → AllOneOnAir w
          → AllOneOnAir
              (elim o as (λ _. Outcome (Unit {0}) × S) [
                | throw e ↦ (throw e, w)
                | ok _ ↦ emit (command_sent p c) w
              ]).1
      sent (throw e) w one = one
      sent (ok _) w one = record { one = one.one }

  pub create_invitation-IsSafe :
      (now : ℕ) (id token p : String) (name : Option String) (expires_at : Option ℕ)
      → IsSafe
          (create_invitation invitations find_production commands now id token p name expires_at)
  unfolding create_invitation
  create_invitation-IsSafe now id token p name expires_at =
      bind-IsSafe {A = Engine} _ _ (require-IsSafe _ _) (λ engine.
        bind-IsSafe {A = Unit {0}} _ _
          (create_row-IsSafe (new_invitation now id token p name expires_at))
          (λ _.
            bind-IsSafe {A = Unit {0}} _ _ (emit_slots_updated-IsSafe p)
              (λ _. return-IsSafe (new_invitation now id token p name expires_at))))

  public_link-IsSafe :
      (token : String) (found : Option Engine)
      → IsSafe (public_link invitations find_production commands token found)
  public_link-IsSafe token none = raise-IsSafe _
  public_link-IsSafe token (some engine) = return-IsSafe (public token)

  check_found-IsSafe :
      (now : ℕ) (token : String) (found : Option GuestInvitation)
      → IsSafe (check_found invitations find_production commands now token found)
  check_found-IsSafe now token (some i) =
      bind-IsSafe {A = Unit {0}} _ _ (throw_if-IsSafe _ _) (λ _. return-IsSafe (invited i))
  check_found-IsSafe now token none = public_link-IsSafe token (find_production token)

  activate_row-IsSafe :
      (pass : Pass) → IsSafe (activate_row invitations find_production commands pass)
  activate_row-IsSafe (public p) = return-IsSafe (public p)
  activate_row-IsSafe (invited i) =
      bind-IsSafe {A = GuestInvitation} _ _ (update_invitation-IsSafe i.id _) (λ row.
        bind-IsSafe {A = Unit {0}} _ _ (emit_slots_updated-IsSafe i.production_id)
          (λ _. return-IsSafe (invited row)))

  pub activate_guest-IsSafe :
      (now : ℕ) (token : String)
      → IsSafe (activate_guest invitations find_production commands now token)
  unfolding activate_guest validate_token
  activate_guest-IsSafe now token =
      bind-IsSafe {A = Pass} _ _
        (bind-IsSafe {A = Option GuestInvitation} _ _
          (find_invitation-IsSafe (λ i. i.token == token)) (check_found-IsSafe now token))
        activate_row-IsSafe

  free_slot-IsSafe :
      (i : GuestInvitation) (slots : Map GuestSlotConfig)
      → OneOnAir slots
      → IsSafe (free_slot invitations find_production commands i slots)
  free_slot-IsSafe i slots one = elim (Option-cases (get slots i.id)) [
    | inl none_yet ↦ rw (free_slot, none_yet) (return-IsSafe tt)
    | inr (c, there_is) ↦
        rw (free_slot, there_is)
          (save_envelope-IsSafe i.production_id (set slots i.id (with_status free c))
            (set-OneOnAir slots i.id (with_status free c) (λ on. cc on) one))
  ]

  release_invitation-IsSafe :
      (i : GuestInvitation) → IsSafe (release_invitation invitations find_production commands i)
  unfolding release_invitation
  release_invitation-IsSafe i = bind-IsSafe {A = Unit {0}} _ _ (delete_invitation-IsSafe i.id) (λ _.
      get_envelope-IsSafe i.production_id _ (λ slots one.
        bind-IsSafe {A = Unit {0}} _ _ (free_slot-IsSafe i slots one)
          (λ _. emit_slots_updated-IsSafe i.production_id)))

  finalize_found-IsSafe :
      (token : String) (found : Option GuestInvitation) (production : Option Engine)
      → find_production token ≡ production
      → IsSafe (finalize_found invitations find_production commands token found)
  finalize_found-IsSafe token (some i) production same = release_invitation-IsSafe i
  finalize_found-IsSafe token none none same = rw same (raise-IsSafe _)
  finalize_found-IsSafe token none (some engine) same = rw same (return-IsSafe tt)

  pub finalize_guest-IsSafe :
      (token : String) → IsSafe (finalize_guest invitations find_production commands token)
  unfolding finalize_guest
  finalize_guest-IsSafe token =
      bind-IsSafe {A = Option GuestInvitation} _ _ (find_invitation-IsSafe (λ i. i.token == token))
        (λ found. finalize_found-IsSafe token found (find_production token) refl)

  pub finalize_guest_by_id-IsSafe :
      (p id : String) → IsSafe (finalize_guest_by_id invitations find_production commands p id)
  unfolding finalize_guest_by_id
  finalize_guest_by_id-IsSafe p id =
      bind-IsSafe {A = Option GuestInvitation} _ _
        (find_invitation-IsSafe (λ i. i.id == id && i.production_id == p))
        (λ found.
          bind-IsSafe {A = GuestInvitation} _ _
            (require-IsSafe found (not_found "Invitación no encontrada")) release_invitation-IsSafe)

  emit_return_feed-IsSafe :
      (p : String) (patch : GuestSlotConfig) (s : Option GuestSlot)
      → IsSafe (emit_return_feed invitations find_production commands p patch s)
  emit_return_feed-IsSafe p patch none = return-IsSafe tt
  emit_return_feed-IsSafe p patch (some s) = elim (Bool-cases (is_heard patch)) [
    | inl heard ↦ rw heard (emit-IsSafe (return_feed_updated p s))
    | inr not_heard ↦ rw not_heard (return-IsSafe tt)
  ]

  -- A patch that does not put on air puts nothing there that was not.
  merge-on_air :
      (slots : Map GuestSlotConfig) (id : String) (patch : GuestSlotConfig)
      → is_program patch.status ≡ false
      → is_program (merge (config_of slots id) patch).status ≡ true
      → on_air slots id ≡ true
  merge-on_air slots id patch off on = kept patch.status off on
    where
      kept :
          (o : Option GuestSlotStatus)
          → is_program o ≡ false
          → is_program (or_old o (config_of slots id).status) ≡ true
          → on_air slots id ≡ true
      kept none off on = on
      kept (some s) off on = absurd (cc (off, on))

  pub update_guest_slot-IsSafe :
      (p id : String) (patch : GuestSlotConfig)
      → is_program patch.status ≡ false
      → IsSafe (update_guest_slot invitations find_production commands p id patch)
  unfolding update_guest_slot
  update_guest_slot-IsSafe p id patch off =
      bind-IsSafe {A = Option GuestInvitation} _ _
        (find_invitation-IsSafe (λ i. i.id == id && i.production_id == p))
        (λ found.
          bind-IsSafe {A = GuestInvitation} _ _
            (require-IsSafe found (not_found "Slot de invitado no encontrado"))
            (λ i. get_envelope-IsSafe p _ (λ slots one.
              let next = merge (config_of slots id) patch in
              bind-IsSafe {A = Unit {0}} _ _
                (save_envelope-IsSafe p (set slots id next)
                  (set-OneOnAir slots id next (merge-on_air slots id patch off) one))
                (λ _. bind-IsSafe {A = List GuestSlot} _ _ (get_guest_slots-IsSafe p) (λ shown.
                  bind-IsSafe {A = Unit {0}} _ _
                    (emit_return_feed-IsSafe p patch (find_slot id shown))
                    (λ _.
                      bind-IsSafe {A = Unit {0}} _ _ (emit_slots_updated-IsSafe p)
                        (λ _. return-IsSafe (find_slot id shown))))))))

  preview_command-IsSafe :
      (p : String) (s : GuestSlot) (engine : Engine)
      → IsSafe (preview_command invitations find_production commands p s engine)
  preview_command-IsSafe p s vmix = send-IsSafe p (vmix_select_input s.vmix_input)
  preview_command-IsSafe p s obs = return-IsSafe tt

  pub take_guest_preview-IsSafe :
      (p id : String) → IsSafe (take_guest_preview invitations find_production commands p id)
  unfolding take_guest_preview
  take_guest_preview-IsSafe p id =
      bind-IsSafe {A = List GuestSlot} _ _ (get_guest_slots-IsSafe p) (λ shown.
        bind-IsSafe {A = GuestSlot} _ _
          (require-IsSafe (find_slot id shown) (not_found "Slot de invitado no encontrado"))
          (λ s.
            bind-IsSafe {A = Unit {0}} _ _ (preview_command-IsSafe p s s.engine_type)
              (λ _. update_guest_slot-IsSafe p id (with_status preview no_config) refl)))

  program_command-IsSafe :
      (p : String) (s : GuestSlot) (engine : Engine)
      → IsSafe (program_command invitations find_production commands p s engine)
  program_command-IsSafe p s vmix =
      bind-IsSafe {A = Unit {0}} _ _ (send-IsSafe p (vmix_select_input s.vmix_input))
        (λ _. send-IsSafe p vmix_cut)
  program_command-IsSafe p s obs =
      bind-IsSafe {A = Unit {0}} _ _
        (throw_if-IsSafe (is_blank s.obs_scene)
          (bad_request "El slot no tiene escena OBS configurada"))
        (λ _. send-IsSafe p (change_scene s.obs_scene))

  pub take_guest_program-IsSafe :
      (p id : String) → IsSafe (take_guest_program invitations find_production commands p id)
  unfolding take_guest_program
  take_guest_program-IsSafe p id =
      bind-IsSafe {A = List GuestSlot} _ _ (get_guest_slots-IsSafe p) (λ shown.
        bind-IsSafe {A = GuestSlot} _ _
          (require-IsSafe (find_slot id shown) (not_found "Slot de invitado no encontrado"))
          (λ s. bind-IsSafe {A = Unit {0}} _ _ (program_command-IsSafe p s s.engine_type) (λ _.
            get_envelope-IsSafe p _ (λ slots one.
              bind-IsSafe {A = Unit {0}} _ _
                (save_envelope-IsSafe p (put_on_air id slots) (put_on_air-OneOnAir id slots))
                (λ _. bind-IsSafe {A = Unit {0}} _ _ (emit_slots_updated-IsSafe p) (λ _.
                  bind-IsSafe {A = List GuestSlot} _ _ (get_guest_slots-IsSafe p)
                    (λ updated. return-IsSafe (find_slot id updated))))))))
