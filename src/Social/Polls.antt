-- ===== src/Social/Polls.antt =====
-- A production has one active poll at most, and what votes count.

pub mod Votes
use live_ops_backend.Prelude.{
  ℕ, String, ◌==◌, ◌≡◌, refl, Bool, true, false, ◌&&◌, List, [], ◌∷◌, ◌++◌, Option, none, some,
  arith, sym, ap, ◌∙◌, subst, ok, World, Option-cases, Bool-cases, inl, inr, ◌⊎◌, eq_iff, All,
  update_where, if◌then◌else◌,
}
use live_ops_backend.Prelude.Table.{Table, update-rows}
use live_ops_backend.Social.{SocialPoll, PollOption, Event}
use live_ops_backend.Social.Voting.{
  is_active_in, close, new_poll, with_options, create_poll, read_vote, write_vote, vote_poll,
  close_poll, open_poll, find_option, count_vote,
}

-- Only the poll `k` may be active in the production.
abbrev pub OnlyActive : String → String → List SocialPoll → Type 0
OnlyActive production_id k xs =
    All (λ (p : SocialPoll). is_active_in production_id p ≡ true → p.id ≡ k) xs

-- a change that keeps a poll's id and makes no poll active
pub record IsQuiet (f : SocialPoll → SocialPoll) : Type 0 where
  pub same_id : (p : SocialPoll) → (f p).id ≡ p.id
  pub no_more :
      (production_id : String) (p : SocialPoll)
      → is_active_in production_id (f p) ≡ true
      → is_active_in production_id p ≡ true

with_options-IsQuiet : (options : List PollOption) → IsQuiet (with_options options)
with_options-IsQuiet options = record { same_id = λ p. refl; no_more = λ production_id p on. on }

close-IsQuiet : IsQuiet close
close-IsQuiet = record { same_id = λ p. refl; no_more = λ production_id p on. ground (arith, on) }

update_where-OnlyActive :
    (production_id k : String) (q : SocialPoll → Bool) (f : SocialPoll → SocialPoll)
    (xs : List SocialPoll)
    → IsQuiet f
    → OnlyActive production_id k xs
    → OnlyActive production_id k (update_where q f xs)
update_where-OnlyActive production_id k q f [] quiet h = tt
update_where-OnlyActive production_id k q f (x ∷ xs) quiet h =
    let ih = update_where-OnlyActive production_id k q f xs quiet h.1 in
    elim (Bool-cases (q x)) [
      | inl e ↦ rw e ((λ on. quiet.same_id x ∙ h.0 (quiet.no_more production_id x on)), ih)
      | inr e ↦ rw e (h.0, ih)
    ]

-- after the active polls were closed, any poll is the only one that may be
closed-OnlyActive :
    (production_id k : String) (xs : List SocialPoll)
    → OnlyActive production_id k (update_where (is_active_in production_id) close xs)
closed-OnlyActive production_id k [] = tt
closed-OnlyActive production_id k (x ∷ xs) =
    (λ on. absurd (closed on), closed-OnlyActive production_id k xs)
  where
    idle : (b : Bool) → (b && false) ≡ true → ⊥
    idle true h = cc
    idle false h = cc

    closed :
        is_active_in production_id (if is_active_in production_id x then close x else x) ≡ true → ⊥
    closed on = elim (Bool-cases (is_active_in production_id x)) [
      | inl e ↦ idle (x.production_id == production_id) (rw e at on)
      | inr e ↦ cc e
    ]

append-OnlyActive :
    (production_id k : String) (xs : List SocialPoll) (p : SocialPoll)
    → OnlyActive production_id k xs
    → (is_active_in production_id p ≡ true → p.id ≡ k)
    → OnlyActive production_id k (xs ++ p ∷ [])
append-OnlyActive production_id k [] p h own = (own, tt)
append-OnlyActive production_id k (x ∷ xs) p h own =
    (h.0, append-OnlyActive production_id k xs p h.1 own)

pub data Call : Type 0 where
  -- id, production, question and options
  creating : String → String → String → List String → Call
  voting : String → List ℕ → Call
  closing : String → Call

module _ (polls : Table SocialPoll) where
  abbrev pub after : Call → World polls.Store Event → World polls.Store Event
  after (creating id production_id question options) w =
      (create_poll polls id production_id question options w).1
  after (voting poll_id option_id) w = (vote_poll polls poll_id option_id w).1
  after (closing poll_id) w = (close_poll polls poll_id w).1

  abbrev pub after_all : List Call → World polls.Store Event → World polls.Store Event
  after_all [] w = w
  after_all (c ∷ cs) w = after_all cs (after c w)

  -- At most one poll of each production is active.
  pub record AllSingle (s : polls.Store) : Type 0 where
    pub one : (production_id : String) → (k : String) × OnlyActive production_id k (polls.rows s)

  update-AllSingle :
      (id : String) (f : SocialPoll → SocialPoll) (s s' : polls.Store) (p : SocialPoll)
      → IsQuiet f
      → polls.update id f s ≡ some (p, s')
      → AllSingle s
      → AllSingle s'
  update-AllSingle id f s s' p quiet done h = record {
    one = λ production_id.
        let (k, only) = h.one production_id in
        (
          k,
          subst (OnlyActive production_id k) (sym (update-rows polls id f s {r = p} {s' = s'} done))
              (update_where-OnlyActive production_id k (λ x. polls.id_of x == id) f (polls.rows s)
                quiet only),
        );
  }

  close_poll-AllSingle :
      (id : String) (w : World polls.Store Event)
      → AllSingle w.db
      → AllSingle (close_poll polls id w).1.db
  unfolding close_poll
  close_poll-AllSingle id w h = elim (Option-cases (polls.update id close w.db)) [
    | inl gone ↦ subst AllSingle (ground (arith, gone)) h
    | inr ((p, s'), done) ↦
        subst AllSingle (ground (arith, done))
          (update-AllSingle id close w.db s' p close-IsQuiet done h)
  ]

  pub write_vote-AllSingle :
      (id : String) (options : List PollOption) (w : World polls.Store Event)
      → AllSingle w.db
      → AllSingle (write_vote polls id options w).1.db
  unfolding write_vote
  write_vote-AllSingle id options w h =
      elim (Option-cases (polls.update id (with_options options) w.db)) [
        | inl gone ↦ subst AllSingle (ground (arith, gone)) h
        | inr ((p, s'), done) ↦ subst AllSingle (ground (arith, done)) (
            update-AllSingle id (with_options options) w.db s' p (with_options-IsQuiet options) done
              h)
      ]

  -- a vote reads without writing: it throws, or it goes on to what it writes
  pub vote_poll-cases :
      (id : String) (option_id : List ℕ) (w : World polls.Store Event)
      → ((vote_poll polls id option_id w).1 ≡ w)
        ⊎ ((options : List PollOption) × ((vote_poll polls id option_id w).1
              ≡ (write_vote polls id options w).1))
  unfolding vote_poll read_vote
  vote_poll-cases id option_id w =
      elim (Option-cases (open_poll (polls.find_first (λ p. p.id == id) w.db))) [
        | inl none_open ↦ inl (ground (arith, none_open))
        | inr (poll, there) ↦ elim (Option-cases (find_option option_id poll.options)) [
          | inl no_option ↦ inl (ground (arith, there, no_option))
          | inr (o, found) ↦ inr (count_vote option_id poll.options, rw (there, found) refl)
        ]
      ]

  vote_poll-AllSingle :
      (id : String) (option_id : List ℕ) (w : World polls.Store Event)
      → AllSingle w.db
      → AllSingle (vote_poll polls id option_id w).1.db
  vote_poll-AllSingle id option_id w h = elim (vote_poll-cases id option_id w) [
    | inl same ↦ subst (λ v. AllSingle v.db) (sym same) h
    | inr (options, same) ↦
        subst (λ v. AllSingle v.db) (sym same) (write_vote-AllSingle id options w h)
  ]

  create_poll-AllSingle :
      (id production_id question : String) (options : List String) (w : World polls.Store Event)
      → AllSingle w.db
      → AllSingle (create_poll polls id production_id question options w).1.db
  unfolding create_poll
  create_poll-AllSingle id production_id question options w h = record {
    one = λ other. elim (Bool-cases (production_id == other)) [
      | inl same ↦ (
        id,
        rows_as other id (
            append-OnlyActive other id _ poll
              (subst
                (λ p. OnlyActive other id (update_where (is_active_in p) close (polls.rows w.db)))
                (sym ((eq_iff production_id other).0 same))
                (closed-OnlyActive other id (polls.rows w.db)))
              (λ on. refl)),
      )
      | inr apart ↦
          let (k, only) = h.one other in
          (
            k,
            rows_as other k (
                append-OnlyActive other k _ poll
                  (update_where-OnlyActive other k (is_active_in production_id) close
                    (polls.rows w.db) close-IsQuiet only)
                  (λ on. absurd (cc (rw apart at on)))),
          )
    ];
  }
    where
      poll : SocialPoll
      poll = new_poll id production_id question options

      rows_as :
          (other k : String)
          → OnlyActive other k
              (update_where (is_active_in production_id) close (polls.rows w.db) ++ poll ∷ [])
          → OnlyActive other k (
              polls.rows
                (polls.create poll (polls.update_many (is_active_in production_id) close w.db)))
      rows_as other k only =
          subst (OnlyActive other k)
            (sym (
              polls.rows-create poll (polls.update_many (is_active_in production_id) close w.db)
              ∙ ap (λ xs. xs ++ poll ∷ [])
                  (polls.rows-update_many (is_active_in production_id) close w.db)))
            only

  -- From at most one active poll in each production, any sequence of openings, votes and closings,
  -- each run to its end before the next, leaves at most one in each.
  pub after_all-AllSingle :
      (cs : List Call) (w : World polls.Store Event)
      → AllSingle w.db
      → AllSingle (after_all cs w).db
  after_all-AllSingle [] w h = h
  after_all-AllSingle (c ∷ cs) w h = after_all-AllSingle cs (after c w) (after-AllSingle c)
    where
      after-AllSingle : (c : Call) → AllSingle (after c w).db
      after-AllSingle (creating id production_id question options) =
          create_poll-AllSingle id production_id question options w h
      after-AllSingle (voting poll_id option_id) = vote_poll-AllSingle poll_id option_id w h
      after-AllSingle (closing poll_id) = close_poll-AllSingle poll_id w h
