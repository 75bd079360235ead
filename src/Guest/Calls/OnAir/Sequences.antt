-- ===== src/Guest/Calls/OnAir/Sequences.antt =====
-- Any sequence of calls.
use live_ops_backend.Prelude.{ℕ, String, ◌≡◌, false, List, [], ◌∷◌, Option, Outcome}
use live_ops_backend.Prelude.Table.{Table}
use live_ops_backend.Guest.{Engine, GuestInvitation, GuestSlotConfig, Command, is_program}
use live_ops_backend.Guest.Calls.{
  Guests, create_invitation, activate_guest, finalize_guest, finalize_guest_by_id,
  update_guest_slot, take_guest_preview, take_guest_program,
}
use live_ops_backend.Guest.Calls.OnAir.Kept.{AllOneOnAir}
use live_ops_backend.Guest.Calls.OnAir.Methods.{
  create_invitation-IsSafe, activate_guest-IsSafe, finalize_guest-IsSafe,
  finalize_guest_by_id-IsSafe, update_guest_slot-IsSafe, take_guest_preview-IsSafe,
  take_guest_program-IsSafe,
}

-- a patch here does not put on air: that is what takeGuestProgram is for
pub data Request : Type 0 where
  invite : ℕ → String → String → String → Option String → Option ℕ → Request
  activate : ℕ → String → Request
  finalize : String → Request
  finalize_by_id : String → String → Request
  patch_slot :
      String → String → (patch : GuestSlotConfig) → is_program patch.status ≡ false → Request
  to_preview to_program : String → String → Request

module _ (invitations : Table GuestInvitation) (find_production : String → Option Engine)
    (commands : String → Command → Outcome (Unit {0})) where
  abbrev S : Type 0
  S = Guests invitations find_production commands

  -- the state after a request, whether it succeeds or not
  abbrev pub after : Request → S → S
  after (invite now id token p name expires_at) w =
      (create_invitation invitations find_production commands now id token p name expires_at w).1
  after (activate now token) w = (activate_guest invitations find_production commands now token w).1
  after (finalize token) w = (finalize_guest invitations find_production commands token w).1
  after (finalize_by_id p id) w =
      (finalize_guest_by_id invitations find_production commands p id w).1
  after (patch_slot p id patch off) w =
      (update_guest_slot invitations find_production commands p id patch w).1
  after (to_preview p id) w = (take_guest_preview invitations find_production commands p id w).1
  after (to_program p id) w = (take_guest_program invitations find_production commands p id w).1

  abbrev pub after_all : List Request → S → S
  after_all [] w = w
  after_all (r ∷ rs) w = after_all rs (after r w)

  after-AllOneOnAir : (r : Request) (w : S) → AllOneOnAir w → AllOneOnAir (after r w)
  after-AllOneOnAir (invite now id token p name expires_at) w =
      (create_invitation-IsSafe invitations find_production commands now id token p name
          expires_at).keeps
        w
  after-AllOneOnAir (activate now token) w =
      (activate_guest-IsSafe invitations find_production commands now token).keeps w
  after-AllOneOnAir (finalize token) w =
      (finalize_guest-IsSafe invitations find_production commands token).keeps w
  after-AllOneOnAir (finalize_by_id p id) w =
      (finalize_guest_by_id-IsSafe invitations find_production commands p id).keeps w
  after-AllOneOnAir (patch_slot p id patch off) w =
      (update_guest_slot-IsSafe invitations find_production commands p id patch off).keeps w
  after-AllOneOnAir (to_preview p id) w =
      (take_guest_preview-IsSafe invitations find_production commands p id).keeps w
  after-AllOneOnAir (to_program p id) w =
      (take_guest_program-IsSafe invitations find_production commands p id).keeps w

  -- Any sequence of calls in which no patch sets the status of a slot to PROGRAM, whether they succeed
  -- or not, keeps every production at one slot on air at most.
  pub requests-AllOneOnAir :
      (rs : List Request) (w : S) → AllOneOnAir w → AllOneOnAir (after_all rs w)
  requests-AllOneOnAir [] w one = one
  requests-AllOneOnAir (r ∷ rs) w one =
      requests-AllOneOnAir rs (after r w) (after-AllOneOnAir r w one)
