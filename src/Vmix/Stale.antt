-- ===== src/Vmix/Stale.antt =====
-- Polls that are answered after their connection was stopped.
use live_ops_backend.Prelude.{
  ℕ, String, ◌≡◌, refl, Bool, true, false, [], ◌∷◌, ◌++◌, Option, none, some, ap, Bool-cases, inl,
  inr, ◌∙◌, eq_refl,
}
use live_ops_backend.Prelude.Map.{get, get-set, get-delete, set}
use mathlib.Core.List.{append-nil, append_assoc}
use live_ops_backend.Vmix.{
  Status, Event, Vmix, connect_vmix, open_instance, stop_polling, disconnect_vmix, is_connected,
}
use live_ops_backend.Vmix.Poll.{poll_succeeded, when}
use live_ops_backend.Vmix.Sustained.{reported, eqb_refl}
use live_ops_backend.Vmix.Sustained.Reported.{reported-++, reported-when, reported-changed}

module _ {Input Audio : Type 0} where
  when-connections :
      (b : Bool) (e : Event Input Audio) (m : Vmix Input Audio)
      → (when b e m).connections ≡ m.connections
  when-connections true e m = refl
  when-connections false e m = refl

  is_connected-absent :
      (p : String) (m : Vmix Input Audio) → get m.connections p ≡ none → is_connected p m ≡ false
  is_connected-absent p m absent = rw (is_connected, absent) refl

  poll_succeeded-connections :
      (r : ℕ) (s : Status Input Audio) (now latency : ℕ) (m : Vmix Input Audio)
      → (poll_succeeded r s now latency m).connections ≡ m.connections
  unfolding poll_succeeded
  poll_succeeded-connections r s now latency m = elim (Bool-cases (m.heap r).poll_in_flight) [
    | inl flying ↦ rw (poll_succeeded, flying, when-connections, when-connections) refl
    | inr over ↦ rw (poll_succeeded, over) refl
  ]

  module _ (p url : String) (interval : Option ℕ) (m : Vmix Input Audio) where
    abbrev opened : Vmix Input Audio
    opened = open_instance p url interval m

    abbrev stopped : Vmix Input Audio
    stopped = disconnect_vmix p m.next opened

    stop_polling-connect_vmix :
        get m.connections p ≡ none → stop_polling p (connect_vmix p url interval m) ≡ stopped
    unfolding connect_vmix open_instance stop_polling
    stop_polling-connect_vmix absent =
        let present : get (set m.connections p m.next) p ≡ some m.next =
          get-set m.connections p m.next p ∙ rw (eq_refl p) refl in
        let connected : connect_vmix p url interval m ≡ opened = rw (connect_vmix, absent) refl in
        ap (stop_polling p) connected ∙ rw (stop_polling, present) refl

    stopped_absent : get stopped.connections p ≡ none
    unfolding open_instance disconnect_vmix
    stopped_absent = get-delete (set m.connections p m.next) p p ∙ rw (eq_refl p) refl

    module _ (s : Status Input Audio) (now latency : ℕ) where
      answered-reported :
          reported (poll_succeeded m.next s now latency stopped).events
          ≡ reported m.events ++ false ∷ true ∷ []
      unfolding open_instance disconnect_vmix poll_succeeded reported
      answered-reported =
          rw
            (eqb_refl m.next, reported-++, reported-when, reported-changed, append-nil, reported-++)
            (append_assoc (reported m.events) (false ∷ []) (true ∷ []))

      answered-absent : is_connected p (poll_succeeded m.next s now latency stopped) ≡ false
      answered-absent = is_connected-absent p (poll_succeeded m.next s now latency stopped) (
          ap (λ c. get c p) (poll_succeeded-connections m.next s now latency stopped)
          ∙ stopped_absent)

  -- A connection that is stopped while its first poll is under way, and the poll is answered after all:
  -- the last state that is reported is that it is up, while the production has no connection.
  pub stopped_poll_reports :
      (p url : String) (interval : Option ℕ) (s : Status Input Audio) (now latency : ℕ)
      (m : Vmix Input Audio)
      → get m.connections p ≡ none
      → let stopped = stop_polling p (connect_vmix p url interval m) in
        let m' = poll_succeeded m.next s now latency stopped in
        (reported m'.events ≡ reported m.events ++ false ∷ true ∷ []) × (is_connected p m' ≡ false)
  stopped_poll_reports p url interval s now latency m absent =
      rw (stop_polling-connect_vmix p url interval m absent) (
        answered-reported p url interval m s now latency,
        answered-absent p url interval m s now latency,
      )
