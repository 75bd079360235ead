-- ===== src/Intercom.antt =====
-- Commands and their templates: src/intercom/intercom.service.ts. Rows lie in the order of their
-- creation; ids of new rows are arguments. The summary by AI and the command history are not
-- modelled. A push notification is recorded when it is attempted: its failure is caught.
pub mod Seeded
mod Tests
use live_ops_backend.Prelude.{
  ℕ, zero, suc, String, ◌==◌, Bool, true, false, ◌&&◌, List, [], ◌∷◌, ◌++◌, Option, none, some,
  Outcome, ok, throw, not_found, record_missing, if◌then◌else◌, M, ◌>>=◌, ◌>>◌, require, return,
  map, filter,
}
use live_ops_backend.Prelude.Table.{Table}

pub record CommandTemplate : Type 0 where
  pub id : String
  pub production_id : String
  pub name : String
  pub description : Option String
  pub icon : Option String
  pub color : Option String

pub record CreateCommandTemplate : Type 0 where
  pub name : String
  pub description : Option String
  pub icon : Option String
  pub color : Option String

pub record Command : Type 0 where
  pub id : String
  pub production_id : String
  pub sender_id : String
  pub target_role_id : Option String
  pub target_user_id : Option String
  pub template_id : Option String
  pub message : String
  pub priority : String
  pub requires_ack : Bool
  pub status : String

pub record SendCommand : Type 0 where
  pub production_id : String
  pub sender_id : String
  pub target_role_id : Option String
  pub target_user_id : Option String
  pub template_id : Option String
  pub message : String
  pub priority : Option String
  pub requires_ack : Option Bool

-- a row of `productionUser`
pub record ProductionUser : Type 0 where
  pub production_id : String
  pub user_id : String
  pub role_id : String

pub data Sent : Type 0 where
  command_created : String → Command → Sent
  -- a push to one user, of the sender's command
  push_direct : String → Command → Sent
  -- a push to a user with the command's target role
  push_alert : String → Command → Sent
  intercom_send : SendCommand → Sent

pub record IntercomState (T C : Type 0) : Type 0 where
  pub templates : T
  pub commands : C
  pub members : List ProductionUser
  pub sent : List Sent

-- the defaults, by name and color
abbrev pub defaults : List (String × String)
defaults =
    ("Prevenido", "#eab308")
    ∷ ("Al Aire", "#ef4444")
    ∷ ("Libre", "#22c55e")
    ∷ ("Más zoom", "#3b82f6")
    ∷ ("Menos zoom", "#3b82f6")
    ∷ ("Plano general", "#8b5cf6")
    ∷ ("Close up", "#8b5cf6")
    ∷ ("Foco", "#3b82f6")
    ∷ ("Silencio", "#ef4444")
    ∷ ("Hablando", "#f97316")
    ∷ ("Subir", "#22c55e")
    ∷ ("Bajar", "#ef4444")
    ∷ ("Pausa", "#64748b")
    ∷ ("Check", "#22c55e")
    ∷ []

abbrev pub template_row : String → String → CreateCommandTemplate → CommandTemplate
template_row id production dto = record {
  id = id;
  production_id = production;
  name = dto.name;
  description = dto.description;
  icon = dto.icon;
  color = dto.color;
}

abbrev pub edited : CreateCommandTemplate → CommandTemplate → CommandTemplate
edited dto t = template_row t.id t.production_id dto

abbrev pub default_row : (ℕ → String) → ℕ → String → String × String → CommandTemplate
default_row fresh n production (name, color) = record {
  id = fresh n;
  production_id = production;
  name = name;
  description = none;
  icon = none;
  color = some color;
}

abbrev pub is_template : String → String → CommandTemplate → Bool
is_template id production t = t.id == id && t.production_id == production

abbrev pub set_text : Option String → Option String
set_text none = none
set_text (some s) = if s == "" then none else some s

abbrev pub or_default {ℓ} : {A : Type ℓ} → Option A → A → A
or_default none a = a
or_default (some x) a = x

abbrev pub command_row : String → SendCommand → Command
command_row id dto = record {
  id = id;
  production_id = dto.production_id;
  sender_id = dto.sender_id;
  target_role_id = dto.target_role_id;
  target_user_id = dto.target_user_id;
  template_id = dto.template_id;
  message = dto.message;
  priority = or_default dto.priority "NORMAL";
  requires_ack = or_default dto.requires_ack true;
  status = "SENT";
}

abbrev pub has_role : String → String → ProductionUser → Bool
has_role production role m = m.production_id == production && m.role_id == role

abbrev pub role_pushes : Command → Option String → List ProductionUser → List Sent
role_pushes c none members = []
role_pushes c (some role) members =
    map (λ (m : ProductionUser). push_alert m.user_id c)
      (filter (has_role c.production_id role) members)

abbrev pub pushes : Command → Option String → List ProductionUser → List Sent
pushes c none members = role_pushes c (set_text c.target_role_id) members
pushes c (some user) members = push_direct user c ∷ []

-- `handlePushNotification`
unfoldable pub handle_push_notification : Command → List ProductionUser → List Sent
handle_push_notification c members = pushes c (set_text c.target_user_id) members

module _ (templates : Table CommandTemplate) (commands : Table Command) where
  abbrev pub Intercom : Type 0
  Intercom = IntercomState templates.Store commands.Store

  abbrev pub add_template : CommandTemplate → Intercom → Intercom
  add_template t s = record s { templates = templates.create t s.templates }

  unfoldable pub create_template :
      String → String → CreateCommandTemplate → M Intercom CommandTemplate
  create_template id production dto s =
      (ok (template_row id production dto), add_template (template_row id production dto) s)

  -- `seedDefaultTemplates`: the loop, with the number of the next row
  unfoldable pub seed_from :
      (ℕ → String) → ℕ → String → List (String × String) → Intercom → Intercom
  seed_from fresh n production [] s = s
  seed_from fresh n production (d ∷ ds) s =
      seed_from fresh (suc n) production ds (add_template (default_row fresh n production d) s)

  abbrev pub of_production : String → Intercom → List CommandTemplate
  of_production production s = templates.find_many (λ t. t.production_id == production) s.templates

  abbrev pub or_seeded :
      (ℕ → String) → String → List CommandTemplate → M Intercom (List CommandTemplate)
  or_seeded fresh production [] s = (
    ok (of_production production (seed_from fresh zero production defaults s)),
    seed_from fresh zero production defaults s,
  )
  or_seeded fresh production (t ∷ ts) s = (ok (t ∷ ts), s)

  unfoldable pub get_templates : (ℕ → String) → String → M Intercom (List CommandTemplate)
  unfolding seed_from
  get_templates fresh production s = or_seeded fresh production (of_production production s) s

  abbrev pub find_template : String → String → M Intercom CommandTemplate
  find_template id production s =
      require (templates.find_first (is_template id production) s.templates)
        (not_found "Template not found in this production") s

  abbrev pub write_template :
      String → (CommandTemplate → CommandTemplate) → M Intercom CommandTemplate
  write_template id f s = elim (templates.update id f s.templates) [
    | none ↦ (throw record_missing, s)
    | some (t, store) ↦ (ok t, record s { templates = store })
  ]

  abbrev pub drop_template : String → M Intercom (Unit {0})
  drop_template id s = elim (templates.delete id s.templates) [
    | none ↦ (throw record_missing, s)
    | some store ↦ (ok tt, record s { templates = store })
  ]

  unfoldable pub update_template :
      String → String → CreateCommandTemplate → M Intercom CommandTemplate
  update_template id production dto = do find_template id production; write_template id (edited dto)

  unfoldable pub delete_template : String → String → M Intercom (Unit {0})
  delete_template id production = do find_template id production; drop_template id

  unfoldable pub send_command : String → SendCommand → M Intercom Command
  unfolding handle_push_notification
  send_command id dto s =
      let c = command_row id dto in
      (
        ok c,
        record s {
          commands = commands.create c s.commands;
          sent =
              (s.sent ++ command_created dto.production_id c ∷ [])
              ++ (handle_push_notification c s.members ++ intercom_send dto ∷ []);
        },
      )
