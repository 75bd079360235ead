-- ===== src/Obs/Manager/Tests.antt =====
-- Connections to a server that does not answer.
use live_ops_backend.Prelude.{ℕ, ◌≤◌, ◌≡◌, refl, true, ==-false→≢, List, [], ◌∷◌, none}
use live_ops_backend.Prelude.Map.{get, set, delete}
use live_ops_backend.Obs.{add_to_production}
use live_ops_backend.Obs.Manager.{
  Call, Timer, Instance, schedule_reconnect, connect_obs_by_id, open_instance, teardown_instance,
  new_instance,
}
use live_ops_backend.Obs.Manager.Calls.{refused, reconnect}
use live_ops_backend.Obs.Manager.Pending.Sequences.{
  Step, connect, obs_refused, timer_fired, after_all, initial, one_reconnect,
}
use live_ops_backend.Obs.Manager.Stale.{Serves, replaced_address_returns}

abbrev call : Call
call = record { connection_id = "c1"; production_id = "p1"; url = "ws://a"; password = none }

abbrev blank : ℕ → Instance
blank = λ r. new_instance r call 0

abbrev twice_refused : List Step
twice_refused = connect call true ∷ obs_refused 0 ∷ timer_fired 0 ∷ obs_refused 1 ∷ []

abbrev handle : ℕ
handle = 1

-- the second wait is four seconds
abbrev second_timer : Timer
second_timer = record { call = call; instance_ = 1; delay = 4000 }

one_reconnect_example :
    (handle ≡ handle) × (2000 ≤ second_timer.delay) × (second_timer.delay ≤ 30000)
unfolding connect_obs_by_id open_instance teardown_instance schedule_reconnect refused reconnect get
    set delete add_to_production
one_reconnect_example =
    one_reconnect blank twice_refused handle handle second_timer second_timer refl refl refl

replaced_address_returns_example : Serves "c1" 2 "ws://a" (
    after_all
      (connect call true
        ∷ connect (record call { url = "ws://b" }) true
        ∷ obs_refused 0
        ∷ obs_refused 1
        ∷ timer_fired 0
        ∷ [])
      (initial blank))
replaced_address_returns_example =
    replaced_address_returns blank call "ws://b" none true true (==-false→≢ "ws://a" "ws://b" refl)
