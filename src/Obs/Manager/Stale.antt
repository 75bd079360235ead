-- ===== src/Obs/Manager/Stale.antt =====
-- Attempts and timers of an address that was replaced.
use live_ops_backend.Prelude.{
  ℕ, String, ◌==◌, ◌≡◌, refl, Bool, false, [], ◌∷◌, Option, none, some, ◌≢◌, ==-eq-false, eq_refl,
  sym, arith, ◌∙◌, ap, subst,
}
use live_ops_backend.Prelude.Map.{get}
use live_ops_backend.Obs.Manager.{
  Call, Instance, Manager, connect_obs_by_id, open_instance, teardown_instance, schedule_for,
  schedule_reconnect, put, over, change,
}
use live_ops_backend.Obs.Manager.Calls.{refused, reconnect, without_timeout}
use live_ops_backend.Obs.Manager.Pending.Changes.{open_instance-connections}
use live_ops_backend.Obs.Manager.Pending.Sequences.{
  after_all, initial, connect, obs_refused, timer_fired,
}

-- what a connection has, with its address
abbrev pub Serves : String → ℕ → String → Manager → Type 0
Serves id r url m = (get m.store.connections id ≡ some r) × ((m.heap r).url ≡ url)

open_instance-Serves :
    (c : Call) (p : Bool) (attempts : ℕ) (m : Manager)
    → Serves c.connection_id m.next_instance c.url (open_instance c p attempts m)
unfolding open_instance
open_instance-Serves c p attempts m = (
  open_instance-connections c p attempts m c.connection_id ∙ rw (eq_refl c.connection_id) refl,
  ground arith,
)

-- A connection that serves another address is replaced.
connect_obs_by_id-other :
    (c : Call) (p : Bool) (m : Manager) (r : ℕ) {url : String}
    → Serves c.connection_id r url m
    → (url == c.url) ≡ false
    → connect_obs_by_id c p m
      ≡ open_instance c p (m.heap r).reconnect_attempts (teardown_instance c.connection_id r m)
unfolding connect_obs_by_id
connect_obs_by_id-other c p m r (present, at) differ =
    rw (connect_obs_by_id, present, at, differ) refl

module _ (heap : ℕ → Instance) (c : Call) (url : String) (password : Option String) (p q : Bool)
    (differ : c.url ≢ url) where
  abbrev replacement : Call
  replacement = record c { url = url; password = password }

  -- one instance for each address, both in `await obs.connect`, the first torn down
  abbrev first : Manager
  first = open_instance c p 0 (initial heap)

  abbrev second : Manager
  second = open_instance replacement q 0 (teardown_instance c.connection_id 0 first)

  -- the first attempt is over, and its failure is the reason to wait
  abbrev waiting : Manager
  waiting = schedule_for c 1 (record second { phase = put 0 over second.phase })

  connect-second : connect_obs_by_id replacement q first ≡ second
  unfolding open_instance
  connect-second =
      connect_obs_by_id-other replacement q first 0 (open_instance-Serves c p 0 (initial heap))
        (==-eq-false _ _ differ)

  second-Serves : Serves c.connection_id 1 url second
  unfolding open_instance teardown_instance
  second-Serves = open_instance-Serves replacement q 0 (teardown_instance c.connection_id 0 first)

  refused-first : refused 0 second ≡ waiting
  unfolding refused open_instance teardown_instance
  refused-first = rw (schedule_reconnect, second-Serves.0) refl

  refused-second : refused 1 waiting ≡ record waiting { phase = put 1 over waiting.phase }
  unfolding refused open_instance teardown_instance
  refused-second = rw (schedule_reconnect, second-Serves.0) refl

  abbrev failed : Manager
  failed = record waiting { phase = put 1 over waiting.phase }

  -- when the timer fires: nothing is scheduled any more
  abbrev fired : Manager
  fired = change 1 without_timeout (record failed { timers = put 0 none failed.timers })

  reconnect-failed :
      reconnect 0 failed
      ≡ open_instance c false
          (fired.heap 1).reconnect_attempts
          (teardown_instance c.connection_id 1 fired)
  unfolding reconnect open_instance teardown_instance
  reconnect-failed =
      connect_obs_by_id-other c false fired 1 second-Serves (==-eq-false _ _ (λ e. differ (sym e)))

  -- A connection whose address is changed while its first attempt is in flight, and both attempts
  -- fail, the old one first: the timer goes back to the old address, and drops the new one.
  pub replaced_address_returns : Serves c.connection_id 2 c.url (
      after_all
        (connect c p ∷ connect replacement q ∷ obs_refused 0 ∷ obs_refused 1 ∷ timer_fired 0 ∷ [])
        (initial heap))
  unfolding get connect_obs_by_id open_instance teardown_instance
  replaced_address_returns =
      subst (Serves c.connection_id 2 c.url)
        (sym (
          ap (λ m. reconnect 0 (refused 1 (refused 0 m))) connect-second
          ∙ ap (λ m. reconnect 0 (refused 1 m)) refused-first
          ∙ ap (reconnect 0) refused-second
          ∙ reconnect-failed))
        (open_instance-Serves c false (fired.heap 1).reconnect_attempts
          (teardown_instance c.connection_id 1 fired))
