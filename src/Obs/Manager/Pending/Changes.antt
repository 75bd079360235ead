-- ===== src/Obs/Manager/Pending/Changes.antt =====
-- The steps that calls are made of keep every pending timer expected.
use live_ops_backend.Prelude.{
  ℕ, suc, ◌≤◌, String, ◌==◌, ◌≡◌, refl, Bool, true, false, Option, none, some, if◌then◌else◌, eqb,
  arith, Option-cases, Bool-cases, inl, inr, eq_refl, ==-eq-false, ap, sym, subst, ◌∙◌, ◌≢◌,
}
use live_ops_backend.Prelude.Map.{get, get-set, get-delete, get-delete-some}
use live_ops_backend.Obs.{add_to_production}
use live_ops_backend.Obs.Manager.{
  Call, Timer, Instance, Manager, put, clear_timeout, change, teardown_instance, back_off,
  schedule_for, schedule_reconnect, open_instance, is_served, connect_obs_by_id, without_intervals,
}
use live_ops_backend.Obs.Manager.Pending.{Expected, Inv}

eqb_refl : (n : ℕ) → eqb n n ≡ true
eqb_refl n = ground arith

eqb-false : (a b : ℕ) → a ≢ b → eqb a b ≡ false
eqb-false a b h = ground (arith, h)

-- Reading a field after a change that keeps it.
keeps {ℓ} :
    {B : Type ℓ} (g : Instance → B) (r : ℕ) (f : Instance → Instance) (heap : ℕ → Instance) (k : ℕ)
    → ((i : Instance) → g (f i) ≡ g i)
    → g (put r (f (heap r)) heap k) ≡ g (heap k)
keeps g r f heap k same = elim (Bool-cases (eqb k r)) [
  | inl e ↦ let at_r : k ≡ r = ground (arith, e) in rw (e, at_r) (same (heap r))
  | inr e ↦ rw e refl
]

cleared :
    (o : Option ℕ) (timers : ℕ → Option Timer) (h : ℕ) (t : Timer)
    → clear_timeout o timers h ≡ some t
    → (timers h ≡ some t) × (o ≢ some h)
cleared none timers h t pending = (pending, λ e. cc e)
cleared (some k) timers h t pending = (ground (arith, pending), λ e. ground (arith, e, pending))

-- Without the timer of an instance, and with none set in it.
pub clear-Inv :
    (r : ℕ) (f : Instance → Instance) (m : Manager)
    → ((i : Instance) → (f i).reconnect_timeout ≡ none)
    → Inv m
    → Inv (change r f (record m { timers = clear_timeout (m.heap r).reconnect_timeout m.timers }))
clear-Inv r f m timeout inv = record {
  expected = λ h t pending.
      let (was, other) = cleared (m.heap r).reconnect_timeout m.timers h t pending in
      let e = inv.expected h t was in
      let apart : eqb t.instance_ r ≡ false =
        eqb-false t.instance_ r
          (λ same. other (subst (λ k. (m.heap k).reconnect_timeout ≡ some h) same e.awaited)) in
      record {
        held = e.held;
        awaited = rw apart e.awaited;
        attempted = rw apart e.attempted;
        waits = rw apart e.waits;
      };
  numbered =
      λ h t pending. inv.numbered h t (cleared (m.heap r).reconnect_timeout m.timers h t pending).0;
  made = inv.made;
}

-- A change of an instance that leaves its timer and its attempts alone.
pub change-Inv :
    (r : ℕ) (f : Instance → Instance) (m : Manager)
    → ((i : Instance) → (f i).reconnect_timeout ≡ i.reconnect_timeout)
    → ((i : Instance) → (f i).reconnect_attempts ≡ i.reconnect_attempts)
    → Inv m
    → Inv (change r f m)
change-Inv r f m timeout attempts inv = record {
  expected = λ h t pending.
      let e = inv.expected h t pending in
      let same = keeps (λ i. i.reconnect_attempts) r f m.heap t.instance_ attempts in
      record {
        held = e.held;
        awaited = keeps (λ i. i.reconnect_timeout) r f m.heap t.instance_ timeout ∙ e.awaited;
        attempted = subst (λ n. 1 ≤ n) (sym same) e.attempted;
        waits = e.waits ∙ ap back_off (sym same);
      };
  numbered = inv.numbered;
  made = inv.made;
}

pub teardown_instance-Inv :
    (id : String) (r : ℕ) (m : Manager)
    → get m.store.connections id ≡ some r
    → Inv m
    → Inv (teardown_instance id r m)
unfolding teardown_instance
teardown_instance-Inv id r m present inv =
    let intervals = change-Inv r without_intervals m (λ i. refl) (λ i. refl) inv in
    record {
      expected = λ h t pending.
          let (was, other) = cleared (m.heap r).reconnect_timeout m.timers h t pending in
          let e = intervals.expected h t was in
          let apart : (id == t.call.connection_id) ≡ false =
            ==-eq-false _ _
              (λ same. other (cc (same, present, e.held, (inv.expected h t was).awaited))) in
          record {
            held = rw (get-delete m.store.connections id t.call.connection_id, apart) e.held;
            awaited = e.awaited;
            attempted = e.attempted;
            waits = e.waits;
          };
      numbered = λ h t pending. inv.numbered h t (cleared _ m.timers h t pending).0;
      made = λ id' r' found. inv.made id' r' (get-delete-some m.store.connections id id' found);
    }

module _ (c : Call) (r : ℕ) (m : Manager) where
  abbrev renewal : Timer
  renewal = record { call = c; instance_ = r; delay = back_off (suc (m.heap r).reconnect_attempts) }

  schedule_for-new :
      get m.store.connections c.connection_id ≡ some r
      → Expected (schedule_for c r m) m.next_timer renewal
  schedule_for-new present = record {
    held = present;
    awaited = rw (eqb_refl r) refl;
    attempted = rw (eqb_refl r) (omega arith);
    waits = rw (eqb_refl r) refl;
  }

  schedule_for-old :
      (h : ℕ) (t : Timer)
      → (m.heap r).reconnect_timeout ≡ none
      → Expected m h t
      → Expected (schedule_for c r m) h t
  schedule_for-old h t idle e =
      let other : eqb t.instance_ r ≡ false =
        eqb-false t.instance_ r (λ same. cc (same, idle, e.awaited)) in
      record {
        held = e.held;
        awaited = rw other e.awaited;
        attempted = rw other e.attempted;
        waits = rw other e.waits;
      }

  pub schedule_for-Inv :
      get m.store.connections c.connection_id ≡ some r
      → (m.heap r).reconnect_timeout ≡ none
      → Inv m
      → Inv (schedule_for c r m)
  schedule_for-Inv present idle inv = record {
    expected = λ h t pending. elim (Bool-cases (eqb h m.next_timer)) [
      | inl e ↦
          let made_so : some renewal ≡ some t = rw e at pending in
          let same : renewal ≡ t = cc made_so in
          let last : m.next_timer ≡ h = ground (arith, e) in
          subst (λ u. Expected (schedule_for c r m) h u) same
            (subst (λ k. Expected (schedule_for c r m) k renewal) last (schedule_for-new present))
      | inr e ↦
          let was : m.timers h ≡ some t = rw e at pending in
          schedule_for-old h t idle (inv.expected h t was)
    ];
    numbered = λ h t pending. elim (Bool-cases (eqb h m.next_timer)) [
      | inl e ↦ ground (arith, e)
      | inr e ↦
          let was : m.timers h ≡ some t = rw e at pending in omega (arith, inv.numbered h t was)
    ];
    made = inv.made;
  }

pub schedule_reconnect-Inv : (c : Call) (m : Manager) → Inv m → Inv (schedule_reconnect c m)
unfolding schedule_reconnect
schedule_reconnect-Inv c m inv = elim (Option-cases (get m.store.connections c.connection_id)) [
  | inl missed ↦ rw (schedule_reconnect, missed) inv
  | inr (r, present) ↦ elim (Option-cases (m.heap r).reconnect_timeout) [
    | inl idle ↦ rw (schedule_reconnect, present, idle) (schedule_for-Inv c r m present idle inv)
    | inr (h, set_already) ↦ rw (schedule_reconnect, present, set_already) inv
  ]
]

-- Only the connection itself gets another instance.
pub open_instance-connections :
    (c : Call) (is_primary : Bool) (attempts : ℕ) (m : Manager) (id : String)
    → get (open_instance c is_primary attempts m).store.connections id
      ≡ (if c.connection_id == id then some m.next_instance else get m.store.connections id)
unfolding open_instance add_to_production
open_instance-connections c true attempts m id =
    get-set m.store.connections c.connection_id m.next_instance id
open_instance-connections c false attempts m id =
    get-set m.store.connections c.connection_id m.next_instance id

open_instance-Inv :
    (c : Call) (is_primary : Bool) (attempts : ℕ) (m : Manager)
    → get m.store.connections c.connection_id ≡ none
    → Inv m
    → Inv (open_instance c is_primary attempts m)
unfolding open_instance
open_instance-Inv c is_primary attempts m absent inv = record {
  expected = λ h t pending.
      let e = inv.expected h t pending in
      let below = inv.made t.call.connection_id t.instance_ e.held in
      let old : eqb t.instance_ m.next_instance ≡ false = ground (arith, below) in
      let apart : (c.connection_id == t.call.connection_id) ≡ false =
        ==-eq-false _ _ (λ same. cc (same, absent, e.held)) in
      record {
        held =
            open_instance-connections c is_primary attempts m t.call.connection_id
            ∙ rw apart e.held;
        awaited = rw old e.awaited;
        attempted = rw old e.attempted;
        waits = rw old e.waits;
      };
  numbered = inv.numbered;
  made = λ id r found.
      let found_now = sym (open_instance-connections c is_primary attempts m id) ∙ found in
      elim (Bool-cases (c.connection_id == id)) [
        | inl e ↦ ground (arith, e, found_now)
        | inr e ↦ let below = inv.made id r (rw e at found_now) in omega (arith, below)
      ];
}

pub connect_obs_by_id-Inv :
    (c : Call) (is_primary : Bool) (m : Manager) → Inv m → Inv (connect_obs_by_id c is_primary m)
unfolding connect_obs_by_id
connect_obs_by_id-Inv c is_primary m inv =
    elim (Option-cases (get m.store.connections c.connection_id)) [
      | inl absent ↦ rw (connect_obs_by_id, absent) (open_instance-Inv c is_primary 0 m absent inv)
      | inr (r, present) ↦ elim (Bool-cases (is_served c (m.heap r))) [
        | inl served ↦ rw (connect_obs_by_id, present, served) inv
        | inr unserved ↦
            rw (connect_obs_by_id, present, unserved)
              (open_instance-Inv c is_primary (m.heap r).reconnect_attempts
                (teardown_instance c.connection_id r m)
                (get-delete m.store.connections c.connection_id c.connection_id
                  ∙ rw (eq_refl c.connection_id) refl)
                (teardown_instance-Inv c.connection_id r m present inv))
      ]
    ]
