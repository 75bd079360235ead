-- ===== src/Social/Polls/Votes.antt =====
-- What votes add up to: two in a row, and two whose reads come before their writes.
use live_ops_backend.Prelude.{
  ℕ, suc, ◌+◌, String, ◌==◌, ◌≡◌, refl, Bool, true, List, [], ◌∷◌, Option, none, some, arith, sym,
  ap, ◌∙◌, subst, ok, World, Bool-cases, inl, inr, find, find-update_where, find-satisfies, ◌>>=◌,
  ◌>>◌, if◌then◌else◌, ◌++◌,
}
use live_ops_backend.Prelude.Table.{Table, update-found}
use live_ops_backend.Guards.{same_codes}
use live_ops_backend.Social.{SocialPoll, PollOption, Event, poll_updated}
use live_ops_backend.Social.Voting.{
  with_options, read_vote, write_vote, vote_poll, find_option, count_vote,
}

abbrev pub total : List PollOption → ℕ
total [] = 0
total (o ∷ os) = o.votes + total os

-- the votes of the option that has an id
abbrev pub votes_of : List ℕ → List PollOption → Option ℕ
votes_of id [] = none
votes_of id (o ∷ os) = if same_codes o.id id then some o.votes else votes_of id os

pub total-count_vote :
    (id : List ℕ) (os : List PollOption) {o : PollOption}
    → find_option id os ≡ some o
    → total (count_vote id os) ≡ suc (total os)
total-count_vote id [] h = cc
total-count_vote id (x ∷ os) {o} h = elim (Bool-cases (same_codes x.id id)) [
  | inl e ↦ rw e (omega arith)
  | inr e ↦ rw e (rw (total-count_vote id os {o = o} (ground (arith, h, e))) (omega arith))
]

-- counting a vote loses no option
pub find_option-count_vote :
    (id other : List ℕ) (os : List PollOption) {o : PollOption}
    → find_option other os ≡ some o
    → (p : PollOption) × (find_option other (count_vote id os) ≡ some p)
find_option-count_vote id other [] h = cc
find_option-count_vote id other (x ∷ os) {o} h = elim (Bool-cases (same_codes x.id other)) [
  | inl e ↦ elim (Bool-cases (same_codes x.id id)) [
    | inl g ↦ (record x { votes = suc x.votes }, rw (g, e) refl)
    | inr g ↦ (x, rw (g, e) refl)
  ]
  | inr e ↦
      let (p, q) = find_option-count_vote id other os {o = o} (ground (arith, h, e)) in
      elim (Bool-cases (same_codes x.id id)) [
        | inl g ↦ (o, rw (g, e) (ground (arith, h, e)))
        | inr g ↦ (p, rw (g, e) q)
      ]
]

module _ (polls : Table SocialPoll) (keyed : polls.id_of ≡ (λ p. p.id)) where
  abbrev pub row : String → polls.Store → Option SocialPoll
  row id s = find (λ p. p.id == id) (polls.rows s)

  -- both votes read before they write
  abbrev pub interleaved :
      String → List ℕ → List ℕ → World polls.Store Event → World polls.Store Event
  interleaved id a b w =
      ((do
        first ← read_vote polls id a
        second ← read_vote polls id b
        write_vote polls id first
        write_vote polls id second)
        w).1

  read_vote-reads :
      (id : String) (a : List ℕ) (w : World polls.Store Event) (p : SocialPoll) (o : PollOption)
      → row id w.db ≡ some p
      → p.is_active ≡ true
      → find_option a p.options ≡ some o
      → read_vote polls id a w ≡ (ok (count_vote a p.options), w)
  unfolding read_vote
  read_vote-reads id a w p o there on found =
      rw (polls.find_first-rows (λ p. p.id == id) w.db, there, on, found) refl

  write_vote-writes :
      (id : String) (options : List PollOption) (w : World polls.Store Event) (p : SocialPoll)
      → row id w.db ≡ some p
      → (w' : World polls.Store Event) × (write_vote polls id options w
          ≡ (ok (with_options options p), w'))
        × (row id w'.db ≡ some (with_options options p))
  unfolding write_vote
  write_vote-writes id options w p there =
      let at_id : find (λ x. polls.id_of x == id) (polls.rows w.db) ≡ some p =
        subst (λ f. find (λ x. f x == id) (polls.rows w.db) ≡ some p) (sym keyed) there in
      let (s', done, wrote) = update-found polls id (with_options options) w.db at_id in
      let written : row id s' ≡ some (with_options options p) =
        ap (find (λ p. p.id == id)) wrote
        ∙ find-update_where (λ p. p.id == id) (λ x. polls.id_of x == id) (with_options options)
            (polls.rows w.db) (λ u. refl) there
        ∙ ap (λ (b : Bool). some (if b then with_options options p else p))
            (ap (λ f. f p == id) keyed
              ∙ (find-satisfies (λ p. p.id == id) (polls.rows w.db) there).1) in
      (
        record { db = s'; events = w.events ++ poll_updated (with_options options p) ∷ [] },
        ground (arith, done),
        written,
      )

  -- An active poll with the options `a` and `b`: two votes, one after the other, count two in all;
  -- two votes that both read the poll before either writes it count one.
  pub interleaved_votes_lose_one :
      (id : String) (a b : List ℕ) (w : World polls.Store Event) (p : SocialPoll) (o q : PollOption)
      → row id w.db ≡ some p
      → p.is_active ≡ true
      → find_option a p.options ≡ some o
      → find_option b p.options ≡ some q
      → ((r : SocialPoll) × (row id (vote_poll polls id b (vote_poll polls id a w).1).1.db ≡ some r)
          × (total r.options ≡ suc (suc (total p.options))))
        × ((r : SocialPoll) × (row id (interleaved id a b w).db ≡ some r)
            × (total r.options ≡ suc (total p.options)))
  unfolding vote_poll
  interleaved_votes_lose_one id a b w p o q there on found_a found_b =
      let p₁ : SocialPoll = with_options (count_vote a p.options) p in
      let (w₁, wrote₁, there₁) = write_vote-writes id (count_vote a p.options) w p there in
      let (q₁, found₁) = find_option-count_vote a b p.options found_b in
      let (w₂, wrote₂, there₂) = write_vote-writes id (count_vote b p₁.options) w₁ p₁ there₁ in
      let (w₃, wrote₃, there₃) = write_vote-writes id (count_vote b p.options) w₁ p₁ there₁ in
      let same : (interleaved id a b w).db ≡ w₃.db = ground (
        arith,
        read_vote-reads id a w p o there on found_a,
        read_vote-reads id b w p q there on found_b,
        wrote₁,
        wrote₃,
      ) in
      (
        (
          with_options (count_vote b p₁.options) p₁,
          rw
              (
                read_vote-reads id a w p o there on found_a,
                wrote₁,
                read_vote-reads id b w₁ p₁ q₁ there₁ on found₁,
                wrote₂,
              )
              there₂,
          total-count_vote b p₁.options found₁
              ∙ ap (λ n. suc n) (total-count_vote a p.options found_a),
        ),
        (
          with_options (count_vote b p.options) p₁,
          ap (row id) same ∙ there₃,
          total-count_vote b p.options found_b,
        ),
      )
