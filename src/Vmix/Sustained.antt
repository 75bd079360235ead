-- ===== src/Vmix/Sustained.antt =====
-- When a connection counts as up: a specification by the history of polls alone, which the counters of
-- the instance implement.
pub mod Reported
use live_ops_backend.Prelude.{
  ℕ, zero, suc, ◌+◌, ◌-◌, ◌≤◌, ◌≡◌, refl, String, Bool, true, false, not, ◌&&◌, List, [], ◌∷◌, ◌++◌,
  Option, none, some, if◌then◌else◌, eqb, leb, length, arith, All, Bool-cases, inl, inr,
  Option-cases, sym, ap, ◌∙◌,
}
use live_ops_backend.Vmix.{
  Status, VmixInstance, Event, connection_state, input_changed, health_stats, Vmix, put, emit,
  change, begin_poll, new_instance,
}
use live_ops_backend.Vmix.Poll.{
  answered, failed, disconnect_after_failures, disconnect_after_ms, since, has_changed, when,
  counted, is_lost, poll_succeeded, poll_failed,
}

positive_if {ℓ} : {A : Type ℓ} (n : ℕ) (a b : A) → (if eqb (suc n) 0 then a else b) ≡ b
positive_if n a b = ground arith

positive_test : {n : ℕ} → 1 ≤ n → eqb n 0 ≡ false
positive_test {n} h = ground (arith, h)

keep_unless : (b c : Bool) → (if b && c then false else b) ≡ (b && not c)
keep_unless true true = refl
keep_unless true false = refl
keep_unless false c = refl

pub eqb_refl : (n : ℕ) → eqb n n ≡ true
eqb_refl n = ground arith

-- a poll that is over: when, and what was answered after how long, if anything was
pub record Poll (Input Audio : Type 0) : Type 0 where
  pub at : ℕ
  pub reply : Option (Status Input Audio × ℕ)

-- what is reported where a connection goes from one state to another
abbrev pub change_of : Bool → Bool → List Bool
change_of true false = false ∷ []
change_of false true = true ∷ []
change_of _ _ = []

module _ {Input Audio : Type 0} where
  -- Histories have the last poll first.
  -- the failures in a row at the end
  unfoldable pub failures : List (Poll Input Audio) → ℕ
  failures [] = 0
  failures (q ∷ qs) = elim q.reply [ none ↦ suc (failures qs) | some _ ↦ 0 ]

  -- when the first of them was
  unfoldable pub failing_since : List (Poll Input Audio) → ℕ
  failing_since [] = 0
  failing_since (q ∷ qs) =
      let before = failing_since qs in if eqb (failures qs) 0 then q.at else before

  -- at least three failures in a row, over at least five seconds
  unfoldable pub is_down : List (Poll Input Audio) → Bool
  is_down [] = true
  is_down (q ∷ qs) = leb 3 (failures (q ∷ qs)) && leb 5000 (q.at - failing_since (q ∷ qs))

  -- up from an answer until the failures have lasted
  unfoldable pub is_up : List (Poll Input Audio) → Bool
  is_up [] = false
  is_up (q ∷ qs) =
      let before = is_up qs in
      elim q.reply [ none ↦ before && not (is_down (q ∷ qs)) | some _ ↦ true ]

  unfoldable pub changes : List (Poll Input Audio) → List Bool
  changes [] = []
  changes (q ∷ qs) = changes qs ++ change_of (is_up qs) (is_up (q ∷ qs))

  -- the connection states among the events
  unfoldable pub reported : List (Event Input Audio) → List Bool
  reported [] = []
  reported (connection_state p b ∷ es) = b ∷ reported es
  reported (input_changed _ _ _ ∷ es) = reported es
  reported (health_stats _ _ ∷ es) = reported es

  -- one poll after the other of an instance
  unfoldable pub poll_once : ℕ → Poll Input Audio → Vmix Input Audio → Vmix Input Audio
  poll_once r q m = elim q.reply [
    | none ↦ poll_failed r q.at (change r begin_poll m)
    | some (s, latency) ↦ poll_succeeded r s q.at latency (change r begin_poll m)
  ]

  unfoldable pub poll_all : ℕ → List (Poll Input Audio) → Vmix Input Audio → Vmix Input Audio
  poll_all r [] m = m
  poll_all r (q ∷ qs) m = poll_once r q (poll_all r qs m)

  pub record Implements (i : VmixInstance Input Audio) (qs : List (Poll Input Audio)) : Type 0 where
    pub up : i.is_connected ≡ is_up qs
    pub count : i.polling_failure_count ≡ failures qs
    pub first : i.first_failure_at ≡ (if eqb (failures qs) 0 then none else some (failing_since qs))
    pub idle : i.poll_in_flight ≡ false

  failing_since_positive :
      (qs : List (Poll Input Audio))
      → All (λ q. 1 ≤ q.at) qs
      → 1 ≤ failures qs
      → 1 ≤ failing_since qs
  unfolding failures failing_since
  failing_since_positive [] all f = absurd (omega (arith, f))
  failing_since_positive (q ∷ qs) (late, all) f =
      ground (arith, late, failing_since_positive qs all)

  -- What a poll leaves of the instance, whatever it sends.
  pub when-heap :
      (b : Bool) (e : Event Input Audio) (m : Vmix Input Audio) → (when b e m).heap ≡ m.heap
  when-heap true e m = refl
  when-heap false e m = refl

  module _ (r : ℕ) (q : Poll Input Audio) (m : Vmix Input Audio) where
    pub poll_once-answered :
        {s : Status Input Audio} {latency : ℕ}
        → q.reply ≡ some (s, latency)
        → (m.heap r).poll_in_flight ≡ false
        → (poll_once r q m).heap r ≡ answered s q.at latency (m.heap r)
    unfolding poll_once poll_succeeded
    poll_once-answered {s} {latency} reply idle =
        rw (poll_once, reply, eqb_refl r, idle, when-heap, when-heap, eqb_refl r) refl

    pub poll_once-failed :
        q.reply ≡ none
        → (m.heap r).poll_in_flight ≡ false
        → (poll_once r q m).heap r ≡ failed q.at (m.heap r)
    unfolding poll_once poll_failed
    poll_once-failed reply idle =
        rw (poll_once, reply, eqb_refl r, idle, when-heap, eqb_refl r) refl

  -- The time that a failure counts from.
  since-failing_since :
      (q : Poll Input Audio) (qs : List (Poll Input Audio)) (first : Option ℕ)
      → All (λ q. 1 ≤ q.at) qs
      → first ≡ (if eqb (failures qs) 0 then none else some (failing_since qs))
      → since first q.at ≡ failing_since (q ∷ qs)
  unfolding failing_since
  since-failing_since q qs first late same = elim (Bool-cases (eqb (failures qs) 0)) [
    | inl e ↦ rw (same, e) refl
    | inr e ↦
        let positive : eqb (failing_since qs) 0 ≡ false =
          ground (arith, e, failing_since_positive qs late) in
        rw (same, e, positive) refl
  ]

  pub poll_once-Implements :
      (r : ℕ) (q : Poll Input Audio) (qs : List (Poll Input Audio)) (m : Vmix Input Audio)
      → All (λ q. 1 ≤ q.at) (q ∷ qs)
      → Implements (m.heap r) qs
      → Implements ((poll_once r q m).heap r) (q ∷ qs)
  unfolding failures failing_since is_up is_down
  poll_once-Implements r q qs m late i = elim (Option-cases q.reply) [
    | inr ((s, latency), reply) ↦
        rw (poll_once-answered r q m reply i.idle)
          (record { up = rw reply refl; count = rw reply refl; first = rw reply refl; idle = refl })
    | inl reply ↦
        let first_now : since (m.heap r).first_failure_at q.at ≡ failing_since (q ∷ qs) =
          since-failing_since q qs (m.heap r).first_failure_at late.1 i.first in
        let started : eqb (failing_since (q ∷ qs)) 0 ≡ false =
          positive_test (failing_since_positive (q ∷ qs) late (rw reply (omega arith))) in
        let down : is_down (q ∷ qs)
            ≡ (leb 3 (suc (failures qs)) && leb 5000 (q.at - failing_since (q ∷ qs))) =
          rw reply refl in
        rw (poll_once-failed r q m reply i.idle) (record {
          up =
              rw (reply, i.up, i.count, first_now, started, down)
                (keep_unless (is_up qs)
                  (leb 3 (suc (failures qs)) && leb 5000 (q.at - failing_since (q ∷ qs))));
          count = rw (reply, i.count) refl;
          first =
              rw (reply, first_now)
                (sym (positive_if (failures qs) none (some (failing_since (q ∷ qs)))));
          idle = refl;
        })
  ]

  pub poll_all-Implements :
      (r : ℕ) (qs : List (Poll Input Audio)) (m : Vmix Input Audio) (url : String)
      → m.heap r ≡ new_instance url
      → All (λ q. 1 ≤ q.at) qs
      → Implements ((poll_all r qs m).heap r) qs
  unfolding poll_all is_up failures
  poll_all-Implements r [] m url new late =
      rw new (record { up = refl; count = refl; first = refl; idle = refl })
  poll_all-Implements r (q ∷ qs) m url new late =
      poll_once-Implements r q qs (poll_all r qs m) late (poll_all-Implements r qs m url new late.1)
