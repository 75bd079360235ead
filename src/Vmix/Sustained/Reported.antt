-- ===== src/Vmix/Sustained/Reported.antt =====
-- The connection states that polls report.
use live_ops_backend.Prelude.{
  ℕ, ◌≤◌, ◌≡◌, refl, String, Bool, true, false, not, ◌&&◌, List, [], ◌∷◌, ◌++◌, if◌then◌else◌, leb,
  ◌-◌, All, inl, inr, Option-cases, subst, sym, ap, ◌∙◌,
}
use mathlib.Core.List.{append-nil, append_assoc}
use live_ops_backend.Vmix.{
  Status, Event, connection_state, input_changed, health_stats, Vmix, new_instance,
}
use live_ops_backend.Vmix.Poll.{
  disconnect_after_failures, disconnect_after_ms, since, when, counted, poll_succeeded, poll_failed,
}
use live_ops_backend.Vmix.Sustained.{
  Poll, change_of, is_up, changes, reported, poll_once, poll_all, eqb_refl, poll_all-Implements,
  poll_once-answered, poll_once-failed,
}

-- Each entry differs from the one before.
abbrev pub alternates : Bool → List Bool → Bool
alternates b [] = true
alternates true (c ∷ cs) = not c && alternates c cs
alternates false (c ∷ cs) = c && alternates c cs

abbrev last_of : Bool → List Bool → Bool
last_of b [] = b
last_of b (c ∷ cs) = last_of c cs

went_up : (b : Bool) → (if not b then true ∷ [] else []) ≡ change_of b true
went_up true = refl
went_up false = refl

went_down :
    (b c : Bool) → (if b && c then false ∷ [] else []) ≡ change_of b (if b && c then false else b)
went_down true true = refl
went_down true false = refl
went_down false c = refl

alternates-++ :
    (b c : Bool) (cs : List Bool)
    → alternates b cs ≡ true
    → (alternates b (cs ++ change_of (last_of b cs) c) ≡ true)
      × (last_of b (cs ++ change_of (last_of b cs) c) ≡ c)
alternates-++ true true [] h = (refl, refl)
alternates-++ true false [] h = (refl, refl)
alternates-++ false true [] h = (refl, refl)
alternates-++ false false [] h = (refl, refl)
alternates-++ true c (true ∷ cs) h = cc h
alternates-++ true c (false ∷ cs) h = alternates-++ false c cs h
alternates-++ false c (true ∷ cs) h = alternates-++ true c cs h
alternates-++ false c (false ∷ cs) h = cc h

module _ {Input Audio : Type 0} where
  changes-alternates :
      (qs : List (Poll Input Audio))
      → (alternates false (changes qs) ≡ true) × (last_of false (changes qs) ≡ is_up qs)
  unfolding changes is_up
  changes-alternates [] = (refl, refl)
  changes-alternates (q ∷ qs) =
      let (before, last) = changes-alternates qs in
      subst
        (λ b.
          (alternates false (changes qs ++ change_of b (is_up (q ∷ qs))) ≡ true)
          × (last_of false (changes qs ++ change_of b (is_up (q ∷ qs))) ≡ is_up (q ∷ qs)))
        last (alternates-++ false (is_up (q ∷ qs)) (changes qs) before)

  pub reported-++ :
      (es fs : List (Event Input Audio)) → reported (es ++ fs) ≡ reported es ++ reported fs
  unfolding reported
  reported-++ [] fs = refl
  reported-++ (connection_state p b ∷ es) fs = ap (λ bs. b ∷ bs) (reported-++ es fs)
  reported-++ (input_changed _ _ _ ∷ es) fs = reported-++ es fs
  reported-++ (health_stats _ _ ∷ es) fs = reported-++ es fs

  pub reported-when :
      (b : Bool) (p : String) (c : Bool) (m : Vmix Input Audio)
      → reported (when b (connection_state p c) m).events
        ≡ reported m.events ++ (if b then c ∷ [] else [])
  unfolding reported
  reported-when true p c m = reported-++ m.events (connection_state p c ∷ [])
  reported-when false p c m = sym (append-nil (reported m.events))

  pub reported-changed :
      (b : Bool) (p url : String) (s : Status Input Audio) (m : Vmix Input Audio)
      → reported (when b (input_changed p s url) m).events ≡ reported m.events
  unfolding reported
  reported-changed true p url s m =
      reported-++ m.events (input_changed p s url ∷ []) ∙ append-nil (reported m.events)
  reported-changed false p url s m = refl

  module _ (r : ℕ) (q : Poll Input Audio) (m : Vmix Input Audio) where
    poll_once-reported :
        (m.heap r).poll_in_flight ≡ false
        → reported (poll_once r q m).events
          ≡ reported m.events
            ++ change_of (m.heap r).is_connected ((poll_once r q m).heap r).is_connected
    unfolding poll_once poll_succeeded poll_failed reported
    poll_once-reported idle = elim (Option-cases q.reply) [
      | inr ((s, latency), reply) ↦ rw (poll_once-answered r q m reply idle) (
          rw
            (
              poll_once,
              reply,
              eqb_refl r,
              idle,
              reported-++,
              append-nil,
              reported-when,
              reported-changed,
            )
            (ap (λ bs. reported m.events ++ bs) (went_up (m.heap r).is_connected)))
      | inl reply ↦
          let j = counted q.at (m.heap r) in
          rw (poll_once-failed r q m reply idle) (
            rw (poll_once, reply, eqb_refl r, idle, reported-when)
              (ap (λ bs. reported m.events ++ bs)
                (went_down (m.heap r).is_connected (
                  leb disconnect_after_failures j.polling_failure_count
                  && leb disconnect_after_ms (q.at - since j.first_failure_at q.at)))))
    ]

  reported-poll_all :
      (r : ℕ) (qs : List (Poll Input Audio)) (m : Vmix Input Audio) (url : String)
      → m.heap r ≡ new_instance url
      → All (λ q. 1 ≤ q.at) qs
      → reported (poll_all r qs m).events ≡ reported m.events ++ changes qs
  unfolding poll_all changes
  reported-poll_all r [] m url new late = sym (append-nil (reported m.events))
  reported-poll_all r (q ∷ qs) m url new late =
      let before = poll_all-Implements r qs m url new late.1 in
      let after = poll_all-Implements r (q ∷ qs) m url new late in
      poll_once-reported r q (poll_all r qs m) before.idle
      ∙ rw (before.up, after.up, reported-poll_all r qs m url new late.1)
          (append_assoc (reported m.events) (changes qs) (change_of (is_up qs) (is_up (q ∷ qs))))

  -- Any polls of a new instance, one after the other: it is connected exactly when the history says
  -- so, which is from an answer until failures in a row, three at least, have lasted five seconds; the
  -- states that are reported are the changes of that, and each differs from the one before.
  pub poll_all-refines :
      (r : ℕ) (qs : List (Poll Input Audio)) (m : Vmix Input Audio) (url : String)
      → m.heap r ≡ new_instance url
      → All (λ q. 1 ≤ q.at) qs
      → (((poll_all r qs m).heap r).is_connected ≡ is_up qs)
        × (reported (poll_all r qs m).events ≡ reported m.events ++ changes qs)
        × (alternates false (changes qs) ≡ true)
  poll_all-refines r qs m url new late = (
    (poll_all-Implements r qs m url new late).up,
    reported-poll_all r qs m url new late,
    (changes-alternates qs).0,
  )
