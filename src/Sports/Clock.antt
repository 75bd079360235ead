-- ===== src/Sports/Clock.antt =====
-- When a clock ticks.
pub mod Sequences
use live_ops_backend.Prelude.{
  ℕ, zero, suc, ◌+◌, ◌<◌, String, ◌==◌, ◌≡◌, refl, Bool, true, false, not, List, [], ◌∷◌, Option,
  none, some, if◌then◌else◌, eqb, get_or, is_some, arith, Option-cases, Bool-cases, inl, inr,
  eq_iff, eq_refl, ==-eq-false, ==-false→≢, sym, ap, ◌∙◌, subst, ◌≢◌,
}
use live_ops_backend.Prelude.Map.{Map, get, set, delete, get-set, get-delete, get-delete-some}
use live_ops_backend.Sports.{
  SportsMatch, default_match, Sports, put, emit, assign, match_of, with_match, changed,
  broadcast_update, update_match, reset_timer, clear_timer, start_timer, flipped, toggle_timer,
  tick,
}

eqb-false : (a b : ℕ) → a ≢ b → eqb a b ≡ false
eqb-false a b h = ground (arith, h)

put-none :
    (h k : ℕ) (f : ℕ → Option String) (q : String)
    → put h none f k ≡ some q
    → (f k ≡ some q) × (k ≢ h)
put-none h k f q now = elim (Bool-cases (eqb k h)) [
  | inl e ↦ absurd (ground (arith, e, now))
  | inr e ↦ (rw e at now, λ same. ground (arith, same, e))
]

deleted-other : (m : Map ℕ) (p q : String) {h : ℕ} → get (delete m p) q ≡ some h → (p == q) ≡ false
deleted-other m p q now = elim (Bool-cases (p == q)) [
  | inl e ↦ absurd (ground (arith, now, e, get-delete m p q))
  | inr e ↦ e
]

module _ (id_of : String → String) where
  match_of-assign :
      (p q : String) (m : SportsMatch) (s : Sports)
      → match_of id_of q (assign p m s) ≡ (if p == q then m else match_of id_of q s)
  unfolding match_of
  match_of-assign p q m s = elim (Bool-cases (p == q)) [
    | inl e ↦ rw (get-set s.matches p m q, e) refl
    | inr e ↦ rw (get-set s.matches p m q, e) refl
  ]

  match_of-absent :
      (p : String) (s : Sports)
      → get s.matches p ≡ none
      → match_of id_of p s ≡ default_match (id_of p) p
  unfolding match_of
  match_of-absent p s missed = rw (match_of, missed) refl

  match_of-with_match :
      (p q : String) (s : Sports) → match_of id_of q (with_match id_of p s) ≡ match_of id_of q s
  unfolding with_match
  match_of-with_match p q s = elim (Option-cases (get s.matches p)) [
    | inr (m, there_is) ↦ rw (with_match, there_is) refl
    | inl missed ↦ elim (Bool-cases (p == q)) [
      | inl e ↦
          rw (with_match, missed, match_of-assign p q (default_match (id_of p) p) s, e)
            (subst (λ r. default_match (id_of p) p ≡ match_of id_of r s) ((eq_iff p q).0 e)
              (sym (match_of-absent p s missed)))
      | inr e ↦ rw (with_match, missed, match_of-assign p q (default_match (id_of p) p) s, e) refl
    ]
  ]

  match_of-changed :
      (p q : String) (f : SportsMatch → SportsMatch) (s : Sports)
      → match_of id_of q (changed id_of p f s)
        ≡ (if p == q then f (match_of id_of p s) else match_of id_of q s)
  match_of-changed p q f s =
      let t = with_match id_of p s in
      match_of-assign p q (f (match_of id_of p t)) t
      ∙ rw (match_of-with_match p p s, match_of-with_match p q s) refl

  -- The clock of a production runs, with one interval, when its match says so, and only then.
  pub record Inv (s : Sports) : Type 0 where
    pub held : (p : String) (h : ℕ) → get s.timers p ≡ some h → s.intervals h ≡ some p
    pub owned : (h : ℕ) (p : String) → s.intervals h ≡ some p → get s.timers p ≡ some h
    pub numbered : (h : ℕ) (p : String) → s.intervals h ≡ some p → h < s.next_interval
    pub shown : (p : String) → (match_of id_of p s).is_running ≡ is_some (get s.timers p)

  -- Whatever leaves the intervals and the running flags alone.
  kept :
      (s t : Sports)
      → t.timers ≡ s.timers
      → t.intervals ≡ s.intervals
      → t.next_interval ≡ s.next_interval
      → ((p : String) → (match_of id_of p t).is_running ≡ (match_of id_of p s).is_running)
      → Inv s
      → Inv t
  kept s t timers intervals next running inv = record {
    held = λ p h found. rw intervals (inv.held p h (rw timers at found));
    owned = λ h p found. rw timers (inv.owned h p (rw intervals at found));
    numbered = λ h p found. rw next (inv.numbered h p (rw intervals at found));
    shown = λ p. running p ∙ rw timers (inv.shown p);
  }

  -- What a match is looked up for leaves the intervals alone.
  record SameIntervals (s t : Sports) : Type 0 where
    timers : t.timers ≡ s.timers
    intervals : t.intervals ≡ s.intervals
    next : t.next_interval ≡ s.next_interval

  with_match-SameIntervals : (p : String) (s : Sports) → SameIntervals s (with_match id_of p s)
  unfolding with_match
  with_match-SameIntervals p s = elim (Option-cases (get s.matches p)) [
    | inr (m, there_is) ↦
        rw (with_match, there_is) (record { timers = refl; intervals = refl; next = refl })
    | inl missed ↦ rw (with_match, missed) (record { timers = refl; intervals = refl; next = refl })
  ]

  flag_kept :
      (p q : String) (f : SportsMatch → SportsMatch) (s : Sports)
      → ((m : SportsMatch) → (f m).is_running ≡ m.is_running)
      → (match_of id_of q (changed id_of p f s)).is_running ≡ (match_of id_of q s).is_running
  flag_kept p q f s keep = elim (Bool-cases (p == q)) [
    | inl e ↦
        rw (match_of-changed p q f s, e)
          (keep (match_of id_of p s) ∙ ap (λ r. (match_of id_of r s).is_running) ((eq_iff p q).0 e))
    | inr e ↦ rw (match_of-changed p q f s, e) refl
  ]

  pub changed-Inv :
      (p : String) (f : SportsMatch → SportsMatch) (s : Sports)
      → ((m : SportsMatch) → (f m).is_running ≡ m.is_running)
      → Inv s
      → Inv (changed id_of p f s)
  changed-Inv p f s keep inv =
      let same = with_match-SameIntervals p s in
      kept s (changed id_of p f s) same.timers same.intervals same.next
        (λ q. flag_kept p q f s keep) inv

  with_match-Inv : (p : String) (s : Sports) → Inv s → Inv (with_match id_of p s)
  with_match-Inv p s inv =
      let same = with_match-SameIntervals p s in
      kept s (with_match id_of p s) same.timers same.intervals same.next
        (λ q. ap (λ m. m.is_running) (match_of-with_match p q s)) inv

  pub broadcast_update-Inv : (p : String) (s : Sports) → Inv s → Inv (broadcast_update id_of p s)
  unfolding match_of
  broadcast_update-Inv p s inv =
      let same = with_match-SameIntervals p s in
      kept s (broadcast_update id_of p s) same.timers same.intervals same.next
        (λ q. ap (λ m. m.is_running) (match_of-with_match p q s)) inv

  -- What holds of all productions but p, while p has no interval.
  record Apart (p : String) (s : Sports) : Type 0 where
    held : (q : String) (h : ℕ) → get s.timers q ≡ some h → s.intervals h ≡ some q
    owned : (h : ℕ) (q : String) → s.intervals h ≡ some q → get s.timers q ≡ some h
    numbered : (h : ℕ) (q : String) → s.intervals h ≡ some q → h < s.next_interval
    stopped : get s.timers p ≡ none
    shown :
        (q : String) → (p == q) ≡ false → (match_of id_of q s).is_running ≡ is_some (get s.timers q)

  clear_timer-Apart : (p : String) (s : Sports) → Inv s → Apart p (clear_timer p s)
  unfolding clear_timer match_of
  clear_timer-Apart p s inv = elim (Option-cases (get s.timers p)) [
    | inl none_yet ↦
        rw (clear_timer, none_yet)
          (record {
            held = inv.held;
            owned = inv.owned;
            numbered = inv.numbered;
            stopped = none_yet;
            shown = λ q other. inv.shown q;
          })
    | inr (h, found) ↦ rw (clear_timer, found) (cleared h found)
  ]
    where
      cleared :
          (h : ℕ)
          → get s.timers p ≡ some h
          → Apart p (record s { intervals = put h none s.intervals; timers = delete s.timers p })
      cleared h found = record {
        held = λ q k now.
            let was = get-delete-some s.timers p q now in
            let other = ==-false→≢ p q (deleted-other s.timers p q now) in
            let apart : eqb k h ≡ false =
              eqb-false k h (λ same. other (cc (same, inv.held q k was, inv.held p h found))) in
            rw apart (inv.held q k was);
        owned = λ k q now.
            let (was, differs) = put-none h k s.intervals q now in
            let other : (p == q) ≡ false =
              ==-eq-false p q (λ same. differs (cc (same, inv.owned k q was, found))) in
            rw (get-delete s.timers p q, other) (inv.owned k q was);
        numbered = λ k q now. inv.numbered k q (put-none h k s.intervals q now).0;
        stopped = get-delete s.timers p p ∙ rw (eq_refl p) refl;
        shown = λ q other. rw (get-delete s.timers p q, other) (inv.shown q);
      }

  changed-Apart :
      (p : String) (f : SportsMatch → SportsMatch) (s : Sports)
      → Apart p s
      → Apart p (changed id_of p f s)
  changed-Apart p f s a =
      let same = with_match-SameIntervals p s in
      record {
        held = λ q h found. rw same.intervals (a.held q h (rw same.timers at found));
        owned = λ h q found. rw same.timers (a.owned h q (rw same.intervals at found));
        numbered = λ h q found. rw same.next (a.numbered h q (rw same.intervals at found));
        stopped = rw same.timers a.stopped;
        shown = λ q other. rw (match_of-changed p q f s, other, same.timers) (a.shown q other);
      }

  still-Inv :
      (p : String) (s : Sports) → Apart p s → (match_of id_of p s).is_running ≡ false → Inv s
  still-Inv p s a still = record {
    held = a.held;
    owned = a.owned;
    numbered = a.numbered;
    shown = λ q. elim (Bool-cases (p == q)) [
      | inl e ↦
          let same = (eq_iff p q).0 e in
          subst (λ r. (match_of id_of r s).is_running ≡ is_some (get s.timers r)) same
            (still ∙ rw a.stopped refl)
      | inr e ↦ a.shown q e
    ];
  }

  start_timer-Inv :
      (p : String) (s : Sports)
      → Apart p s
      → (match_of id_of p s).is_running ≡ true
      → Inv (start_timer p s)
  unfolding match_of
  start_timer-Inv p s a running = record {
    held = λ q h now. elim (Bool-cases (p == q)) [
      | inl e ↦
          let last : some s.next_interval ≡ some h =
            sym (get-set s.timers p s.next_interval q ∙ rw e refl) ∙ now in
          let same : p ≡ q = (eq_iff p q).0 e in
          let at_last : eqb h s.next_interval ≡ true = ground (arith, last) in
          rw at_last (ap some same)
      | inr e ↦
          let was : get s.timers q ≡ some h =
            sym (get-set s.timers p s.next_interval q ∙ rw e refl) ∙ now in
          let old = a.held q h was in
          let below = a.numbered h q old in
          let apart : eqb h s.next_interval ≡ false = ground (arith, below) in rw apart old
    ];
    owned = λ h q now. elim (Bool-cases (eqb h s.next_interval)) [
      | inl e ↦
          let mine : some p ≡ some q = rw e at now in
          let same : p ≡ q = cc mine in
          let last : s.next_interval ≡ h = ground (arith, e) in
          subst (λ r. get (set s.timers p s.next_interval) r ≡ some h) same
            (get-set s.timers p s.next_interval p ∙ rw (eq_refl p) (ap some last))
      | inr e ↦
          let old : s.intervals h ≡ some q = rw e at now in
          let was = a.owned h q old in
          let other : (p == q) ≡ false = ==-eq-false p q (λ same. cc (same, was, a.stopped)) in
          get-set s.timers p s.next_interval q ∙ rw other was
    ];
    numbered = λ h q now. elim (Bool-cases (eqb h s.next_interval)) [
      | inl e ↦ ground (arith, e)
      | inr e ↦
          let old : s.intervals h ≡ some q = rw e at now in
          let below = a.numbered h q old in omega (arith, below)
    ];
    shown = λ q. elim (Bool-cases (p == q)) [
      | inl e ↦
          rw (get-set s.timers p s.next_interval q, e)
            (subst (λ r. (match_of id_of r s).is_running ≡ true) ((eq_iff p q).0 e) running)
      | inr e ↦ rw (get-set s.timers p s.next_interval q, e) (a.shown q e)
    ];
  }

  pub toggle_timer-Inv : (p : String) (s : Sports) → Inv s → Inv (toggle_timer id_of p s)
  unfolding toggle_timer
  toggle_timer-Inv p s inv =
      let there = with_match-Inv p s inv in
      let t = changed id_of p flipped (clear_timer p (with_match id_of p s)) in
      let a =
        changed-Apart p flipped (clear_timer p (with_match id_of p s))
          (clear_timer-Apart p (with_match id_of p s) there) in
      elim (Bool-cases (match_of id_of p t).is_running) [
        | inl on ↦
            rw (toggle_timer, on)
              (broadcast_update-Inv p (start_timer p t) (start_timer-Inv p t a on))
        | inr off ↦ rw (toggle_timer, off) (broadcast_update-Inv p t (still-Inv p t a off))
      ]

  pub tick-Inv : (h : ℕ) (s : Sports) → Inv s → Inv (tick id_of h s)
  unfolding tick match_of
  tick-Inv h s inv = elim (Option-cases (s.intervals h)) [
    | inl gone ↦ rw (tick, gone) inv
    | inr (p, runs) ↦
        rw (tick, runs)
          (kept (changed id_of p later s) _ refl refl refl (λ q. refl)
            (changed-Inv p later s (λ m. refl) inv))
  ]
    where
      later : SportsMatch → SportsMatch
      later m = record m { timer = suc m.timer }
