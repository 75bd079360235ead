-- ===== src/Automation/Executor/Failures.antt =====
-- How an action fails, and what it then has called.
use live_ops_backend.Prelude.{
  String, ◌≡◌, refl, List, [], ◌∷◌, ◌++◌, Option, none, some, ap, sym, ◌∙◌, Outcome, ok, throw,
  Exception, ◌>>=◌,
}
use live_ops_backend.Automation.Executor.{
  Payload, ActionType, change_scene, vmix_cut, vmix_fade, vmix_change_input, intercom_send,
  webhook_call, instant_clip, unknown_type, Call, Peers, text, number, or_text, call, if_set,
  template_message, send_template, intercom, either_text, execute_action,
}

module _ (peers : Peers) where
  -- Why an action failed: the one call that it made, or the search for its template.
  pub data Failed (s s' : List Call) (e : Exception) : Type 0 where
    by_call : (c : Call) → peers.answer c ≡ throw e → s' ≡ s ++ c ∷ [] → Failed s s' e
    by_template : (id : String) → peers.find_template id ≡ throw e → s' ≡ s → Failed s s' e

  call-Failed :
      (c : Call) (s s' : List Call) (e : Exception) → call peers c s ≡ (throw e, s') → Failed s s' e
  call-Failed c s s' e h =
      by_call c (ap (λ (x : Outcome (Unit {0}) × List Call). x.0) h)
        (sym (ap (λ (x : Outcome (Unit {0}) × List Call). x.1) h))

  if_set-Failed {ℓ} :
      {A : Type ℓ} (o : Option A) (c : A → Call) (s s' : List Call) (e : Exception)
      → if_set peers o (λ a. call peers (c a)) s ≡ (throw e, s')
      → Failed s s' e
  if_set-Failed none c s s' e h = cc
  if_set-Failed (some a) c s s' e h = call-Failed (c a) s s' e h

  send_template-Failed :
      (production : String) (p : Payload) (o : Option String) (s s' : List Call) (e : Exception)
      → send_template peers production p o s ≡ (throw e, s')
      → Failed s s' e
  send_template-Failed production p none s s' e h = cc
  send_template-Failed production p (some id) s s' e h = by_answer (peers.find_template id) refl h
    where
      as_text : Outcome (Unit {0}) → Outcome (Option String)
      as_text (ok u) = ok none
      as_text (throw x) = throw x

      by_answer :
          (a : Outcome (Option String))
          → peers.find_template id ≡ a
          → send_template peers production p (some id) s ≡ (throw e, s')
          → Failed s s' e
      by_answer (ok name) found h =
          call-Failed _ s s' e (rw (send_template, ◌>>=◌, template_message, found) at h)
      by_answer (throw x) found h =
          by_template id
            (found
              ∙ ap (λ (y : Outcome (Unit {0}) × List Call). as_text y.0)
                  (rw (send_template, ◌>>=◌, template_message, found) at h))
            (sym (
              ap (λ (y : Outcome (Unit {0}) × List Call). y.1)
                (rw (send_template, ◌>>=◌, template_message, found) at h)))

  intercom-Failed :
      (production : String) (p : Payload) (o : Option String) (s s' : List Call) (e : Exception)
      → intercom peers production p o s ≡ (throw e, s')
      → Failed s s' e
  intercom-Failed production p none s s' e h =
      send_template-Failed production p (text p.template_id) s s' e h
  intercom-Failed production p (some m) s s' e h = call-Failed _ s s' e h

  -- An action fails only where the one call that it made fails, or the search for its template.
  pub execute_action-Failed :
      (t : ActionType) (p : Payload) (production : String) (triggered : String → String)
      (name : String) (s s' : List Call) (e : Exception)
      → execute_action peers t p production triggered name s ≡ (throw e, s')
      → Failed s s' e
  unfolding execute_action
  execute_action-Failed change_scene p production triggered name s s' e h =
      if_set-Failed (text p.scene_name) (Call.obs_change_scene production) s s' e h
  execute_action-Failed vmix_cut p production triggered name s s' e h = call-Failed _ s s' e h
  execute_action-Failed vmix_fade p production triggered name s s' e h = call-Failed _ s s' e h
  execute_action-Failed vmix_change_input p production triggered name s s' e h =
      if_set-Failed (number p.input) (Call.change_input production) s s' e h
  execute_action-Failed intercom_send p production triggered name s s' e h =
      intercom-Failed production p (text p.message) s s' e h
  execute_action-Failed webhook_call p production triggered name s s' e h =
      if_set-Failed (either_text peers (text p.url) (text p.message))
        (λ _. Call.send_notification production (or_text p.message (triggered name))) s s' e h
  execute_action-Failed instant_clip p production triggered name s s' e h = cc
  execute_action-Failed (unknown_type x) p production triggered name s s' e h = cc
