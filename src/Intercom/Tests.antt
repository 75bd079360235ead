-- ===== src/Intercom/Tests.antt =====
-- Templates and commands on concrete tables.
use live_ops_backend.Prelude.{List, [], ◌∷◌, none, some, ◌≡◌, refl}
use live_ops_backend.Prelude.Table.{Table, list_table}
use live_ops_backend.Intercom.{
  handle_push_notification, push_alert, CommandTemplate, Command, ProductionUser, command_row,
}

abbrev templates : Table CommandTemplate
templates = list_table (λ (t : CommandTemplate). t.id)

abbrev commands : Table Command
commands = list_table (λ (c : Command). c.id)

abbrev to_cameras : Command
to_cameras = command_row "c1" (record {
  production_id = "p";
  sender_id = "u0";
  target_role_id = some "camera";
  target_user_id = none;
  template_id = none;
  message = "Foco";
  priority = none;
  requires_ack = none;
})

abbrev crew : List ProductionUser
crew =
    record { production_id = "p"; user_id = "u1"; role_id = "camera" }
    ∷ record { production_id = "q"; user_id = "u2"; role_id = "camera" }
    ∷ []

-- only the cameras of the command's production are notified
notifies_cameras : handle_push_notification to_cameras crew ≡ push_alert "u1" to_cameras ∷ []
unfolding handle_push_notification
notifies_cameras = refl
