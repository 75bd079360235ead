-- ===== src/Automation/Executor/Tests.antt =====
-- An action whose call fails.
use live_ops_backend.Prelude.{
  String, ◌≡◌, refl, true, false, [], ◌∷◌, none, some, ok, throw, internal,
}
use live_ops_backend.Automation.Executor.{
  Payload, instant_clip, save_replay_buffer, Peers, execute_action,
}

abbrev peers : Peers
peers = record {
  answer = λ c. throw (internal "offline");
  obs_connected = λ p. true;
  vmix_connected = λ p. false;
  find_template = λ id. ok none;
}

abbrev payload : Payload
payload = record {
  scene_name = none;
  duration = some 0;
  input = none;
  template_id = some "t";
  message = some "";
  target_role_id = none;
  requires_ack = none;
  url = none;
}

abbrev triggered : String → String
triggered name = name

clips :
    execute_action peers instant_clip payload "p" triggered "r" []
    ≡ (ok tt, save_replay_buffer "p" ∷ [])
unfolding execute_action
clips = refl
