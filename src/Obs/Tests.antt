-- ===== src/Obs/Tests.antt =====
-- A store with a primary connection that is gone and a second one that is up.
use live_ops_backend.Prelude.{String, ◌≡◌, refl, true, false, none, [], ◌∷◌, some}
use live_ops_backend.Prelude.Map.{get}
use live_ops_backend.Obs.{
  ObsInstance, ObsStateStore, get_instance, first_connected, get_obs_state, first_present,
}

abbrev up : ObsInstance String String
up = record {
  url = "ws://b";
  is_connected = true;
  obs = "socket";
  last_state = "live";
  password = none;
  reconnect_timeout = none;
  stats_interval = true;
  heartbeat_interval = true;
  screenshot_interval = true;
  reconnect_attempts = 0;
}

abbrev down : ObsInstance String String
down = record {
  url = "ws://a";
  is_connected = false;
  obs = "closed";
  last_state = "old";
  password = none;
  reconnect_timeout = none;
  stats_interval = false;
  heartbeat_interval = false;
  screenshot_interval = false;
  reconnect_attempts = 3;
}

abbrev store : ObsStateStore (ObsInstance String String)
store = record {
  connections = ("a", down) ∷ ("b", up) ∷ [];
  production_map = ("p", "a" ∷ "b" ∷ []) ∷ ("q", "b" ∷ []) ∷ [];
  primary_map = ("p", "a") ∷ [];
}

-- the production is reported as not connected while it has an instance
fallback :
    (get_instance "p" store ≡ some "socket") × ((get_obs_state "p" store).is_connected ≡ false)
unfolding get_instance get_obs_state first_connected first_present get
fallback = (refl, refl)
