-- ===== src/Guest.antt =====
-- Guests of a production: src/guest/guest.service.ts. Rows lie in the order of their creation; the
-- configuration of the slots is the last log entry of its kind, so the entries lie here with the last
-- one first. A token is unique, so what is done by token is done by the id of the row that was found.
-- Volumes are thousandths. `commands` is what the streaming service makes of a command.
pub mod Calls
mod Tests
use live_ops_backend.Prelude.{
  ℕ, zero, suc, ◌+◌, ◌*◌, String, ◌==◌, Bool, true, false, not, ◌&&◌, ◌||◌, List, [], ◌∷◌, ◌++◌,
  Option, none, some, Outcome, ok, throw, not_found, bad_request, M, World, ◌>>=◌, ◌>>◌, throw_if,
  require, return, raise, reads, writes, emit, if◌then◌else◌, ltb, get_or, is_some, find, filter,
}
use live_ops_backend.Prelude.Map.{Map, get, set}
use live_ops_backend.Prelude.Table.{Table}

pub data InviteStatus : Type 0 where
  pending active used : InviteStatus

pub data GuestSlotStatus : Type 0 where
  free preview program : GuestSlotStatus

pub data GuestReturnFeed : Type 0 where
  program_feed preview_feed control_feed no_feed : GuestReturnFeed

pub data Engine : Type 0 where
  obs vmix : Engine

-- a text, or the one that is made of the slot's number: `GUEST_${n}`, `Invitado ${n}`
pub data Label : Type 0 where
  given : String → Label
  numbered : ℕ → Label

pub record GuestInvitation : Type 0 where
  pub id : String
  pub token : String
  pub guest_name : Option String
  pub production_id : String
  pub status : InviteStatus
  pub expires_at : ℕ

-- a configuration, and a patch of one
pub record GuestSlotConfig : Type 0 where
  pub vmix_input : Option ℕ
  pub obs_scene : Option String
  pub status : Option GuestSlotStatus
  pub return_feed : Option GuestReturnFeed
  pub ifb_volume : Option ℕ
  pub program_return_volume : Option ℕ

pub record GuestSlot : Type 0 where
  -- also the invitation's, and what follows `guest-` in the participant's identity
  pub slot_id : String
  pub guest_name : Label
  pub invite_status : InviteStatus
  pub order : ℕ
  pub vmix_input : ℕ
  pub obs_scene : Label
  pub status : GuestSlotStatus
  pub return_feed : GuestReturnFeed
  pub ifb_volume : ℕ
  pub program_return_volume : ℕ
  pub engine_type : Engine

pub data Command : Type 0 where
  vmix_select_input : ℕ → Command
  vmix_cut : Command
  change_scene : Label → Command

pub data Event : Type 0 where
  slots_updated : String → List GuestSlot → Event
  return_feed_updated : String → GuestSlot → Event
  command_sent : String → Command → Event

pub record GuestDb (I : Type 0) : Type 0 where
  pub invitations : I
  pub configs : List (String × Map GuestSlotConfig)

abbrev pub no_config : GuestSlotConfig
no_config = record {
  vmix_input = none;
  obs_scene = none;
  status = none;
  return_feed = none;
  ifb_volume = none;
  program_return_volume = none;
}

-- `{ ...old, ...patch }` of a field
abbrev pub or_old : {A : Type 0} → Option A → Option A → Option A
or_old none old = old
or_old (some a) old = some a

abbrev pub merge : GuestSlotConfig → GuestSlotConfig → GuestSlotConfig
merge old patch = record {
  vmix_input = or_old patch.vmix_input old.vmix_input;
  obs_scene = or_old patch.obs_scene old.obs_scene;
  status = or_old patch.status old.status;
  return_feed = or_old patch.return_feed old.return_feed;
  ifb_volume = or_old patch.ifb_volume old.ifb_volume;
  program_return_volume = or_old patch.program_return_volume old.program_return_volume;
}

abbrev pub with_status : GuestSlotStatus → GuestSlotConfig → GuestSlotConfig
with_status s c = record c { status = some s }

-- `slots[id] || {}`
abbrev pub config_of : Map GuestSlotConfig → String → GuestSlotConfig
config_of slots id = get_or (get slots id) no_config

abbrev pub is_program : Option GuestSlotStatus → Bool
is_program (some program) = true
is_program _ = false

-- what takeGuestProgram does to the configuration under a key
abbrev pub aired : String → String → GuestSlotConfig → GuestSlotConfig
aired slot_id key c =
    if key == slot_id
    then with_status program c
    else if is_program c.status
    then with_status free c
    else c

unfoldable pub air_all : String → Map GuestSlotConfig → Map GuestSlotConfig
air_all slot_id [] = []
air_all slot_id ((key, c) ∷ slots) = (key, aired slot_id key c) ∷ air_all slot_id slots

-- the slots with this one alone on air
unfoldable pub put_on_air : String → Map GuestSlotConfig → Map GuestSlotConfig
unfolding air_all
put_on_air slot_id slots =
    let aired_slots = air_all slot_id slots in
    set aired_slots slot_id (with_status program (config_of aired_slots slot_id))

-- the last configuration of a production
unfoldable pub slots_of : String → List (String × Map GuestSlotConfig) → Map GuestSlotConfig
slots_of p [] = []
slots_of p ((q, slots) ∷ configs) = let rest = slots_of p configs in if q == p then slots else rest

-- `name || other`
abbrev pub label_or : Option String → ℕ → Label
label_or none n = numbered n
label_or (some t) n = if t == "" then numbered n else given t

-- `scene ?? other`
abbrev pub scene_or : Option String → ℕ → Label
scene_or none n = numbered n
scene_or (some t) n = given t

abbrev pub slot_of : Engine → Map GuestSlotConfig → ℕ → GuestInvitation → GuestSlot
slot_of engine slots order i =
    let c = config_of slots i.id in
    record {
      slot_id = i.id;
      guest_name = label_or i.guest_name order;
      invite_status = i.status;
      order = order;
      vmix_input = get_or c.vmix_input order;
      obs_scene = scene_or c.obs_scene order;
      status = get_or c.status free;
      return_feed = get_or c.return_feed control_feed;
      ifb_volume = get_or c.ifb_volume 800;
      program_return_volume = get_or c.program_return_volume 300;
      engine_type = engine;
    }

-- `invitations.map((invitation, index) => …)`, from the order of the first
unfoldable pub slots_from : Engine → Map GuestSlotConfig → ℕ → List GuestInvitation → List GuestSlot
slots_from engine slots order [] = []
slots_from engine slots order (i ∷ is_) =
    slot_of engine slots order i ∷ slots_from engine slots (suc order) is_

abbrev pub is_used : InviteStatus → Bool
is_used used = true
is_used _ = false
