-- ===== src/Automation/Executor.antt =====
-- `AutomationActionExecutor.executeAction` of src/automation/automation-action.executor.ts. The
-- services that it calls are a parameter that answers each call; the state is the list of calls made.
-- A payload's fields are read at the types that the source casts them to.
pub mod Failures
mod Tests
use live_ops_backend.Prelude.{
  ℕ, zero, suc, String, ◌==◌, Bool, true, false, List, [], ◌∷◌, ◌++◌, Option, none, some, Outcome,
  ok, throw, if◌then◌else◌, M, ◌>>=◌, ◌>>◌, return,
}

pub record Payload : Type 0 where
  pub scene_name : Option String
  pub duration : Option ℕ
  pub input : Option ℕ
  pub template_id : Option String
  pub message : Option String
  pub target_role_id : Option String
  pub requires_ack : Option Bool
  pub url : Option String

-- the values of `action.actionType`
pub data ActionType : Type 0 where
  change_scene vmix_cut vmix_fade vmix_change_input intercom_send webhook_call instant_clip :
      ActionType
  unknown_type : String → ActionType

pub record Command : Type 0 where
  pub production_id : String
  pub sender_id : String
  pub target_role_id : Option String
  pub template_id : Option String
  pub message : String
  pub requires_ack : Bool

-- calls of other services, the first argument is the production
pub data Call : Type 0 where
  obs_change_scene : String → String → Call
  cut : String → Call
  fade change_input : String → ℕ → Call
  send_command : Command → Call
  send_notification : String → String → Call
  save_replay_buffer save_video_delay : String → Call

pub record Peers : Type 0 where
  pub answer : Call → Outcome (Unit {0})
  pub obs_connected : String → Bool
  pub vmix_connected : String → Bool
  -- the name of a command template, null for an unknown one
  pub find_template : String → Outcome (Option String)

-- a text that counts as true
abbrev pub text : Option String → Option String
text none = none
text (some s) = if s == "" then none else some s

-- a number that counts as true
abbrev pub number : Option ℕ → Option ℕ
number none = none
number (some zero) = none
number (some (suc n)) = some (suc n)

abbrev pub or_text : Option String → String → String
or_text o other = elim (text o) [ none ↦ other | some s ↦ s ]

abbrev pub duration_or_default : Option ℕ → ℕ
duration_or_default o = elim (number o) [ none ↦ 500 | some n ↦ n ]

abbrev pub ack_or_true : Option Bool → Bool
ack_or_true none = true
ack_or_true (some b) = b

module _ (peers : Peers) where
  abbrev pub call : Call → M (List Call) (Unit {0})
  call c s = (peers.answer c, s ++ c ∷ [])

  abbrev pub if_set {ℓ} :
      {A : Type ℓ} → Option A → (A → M (List Call) (Unit {0})) → M (List Call) (Unit {0})
  if_set none k = return tt
  if_set (some a) k = k a

  -- `template?.name || 'Automation Alert'`
  abbrev pub template_message : String → M (List Call) String
  template_message id s = elim (peers.find_template id) [
    | throw e ↦ (throw e, s)
    | ok name ↦ (ok (or_text name "Automation Alert"), s)
  ]

  abbrev pub send : String → Payload → String → M (List Call) (Unit {0})
  send production p message = call (
      send_command (record {
        production_id = production;
        sender_id = "00000000-0000-0000-0000-000000000000";
        target_role_id = p.target_role_id;
        template_id = p.template_id;
        message = message;
        requires_ack = ack_or_true p.requires_ack;
      }))

  abbrev pub send_template : String → Payload → Option String → M (List Call) (Unit {0})
  send_template production p none = return tt
  send_template production p (some id) = do message ← template_message id; send production p message

  -- by the message, or else by the template
  abbrev pub intercom : String → Payload → Option String → M (List Call) (Unit {0})
  intercom production p none = send_template production p (text p.template_id)
  intercom production p (some message) = send production p message

  abbrev pub either_text : Option String → Option String → Option String
  either_text none b = b
  either_text (some a) b = some a

  -- `try { … } catch (e) { log }`
  abbrev pub caught : M (List Call) (Unit {0}) → M (List Call) (Unit {0})
  caught m s = (ok tt, (m s).1)

  abbrev pub clip : String → M (List Call) (Unit {0})
  clip production =
      if peers.obs_connected production
      then call (save_replay_buffer production)
      else if peers.vmix_connected production
      then call (save_video_delay production)
      else return tt

  -- the action's type and payload, the rule's production and name
  unfoldable pub execute_action :
      ActionType → Payload → String → (String → String) → String → M (List Call) (Unit {0})
  execute_action change_scene p production triggered name =
      if_set (text p.scene_name) (λ scene. call (obs_change_scene production scene))
  execute_action vmix_cut p production triggered name = call (cut production)
  execute_action vmix_fade p production triggered name =
      call (fade production (duration_or_default p.duration))
  execute_action vmix_change_input p production triggered name =
      if_set (number p.input) (λ input. call (change_input production input))
  execute_action intercom_send p production triggered name = intercom production p (text p.message)
  execute_action webhook_call p production triggered name =
      if_set (either_text (text p.url) (text p.message))
        (λ _. call (send_notification production (or_text p.message (triggered name))))
  execute_action instant_clip p production triggered name = caught (clip production)
  execute_action (unknown_type t) p production triggered name = return tt
