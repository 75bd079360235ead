-- ===== src/Social/Voting.antt =====
-- Polls: createPoll, votePoll and closePoll of src/social/social.service.ts. A vote reads and writes in
-- a transaction, which others may come between.
use live_ops_backend.Prelude.{
  ℕ, zero, suc, String, ◌==◌, Bool, true, false, ◌&&◌, List, [], ◌∷◌, ◌++◌, Option, none, some,
  not_found, if◌then◌else◌, eqb, M, ◌>>=◌, ◌>>◌, require, return, writes, World, emit, reads,
}
use live_ops_backend.Prelude.Table.{Table, update_row}
use live_ops_backend.Guards.{codes, same_codes}
use live_ops_backend.Social.{PollOption, SocialPoll, Event, poll_created, poll_updated, poll_closed}

-- one more, the digits from the last
abbrev pub increment : List ℕ → List ℕ
increment [] = b'1' ∷ []
increment (d ∷ ds) = if eqb d b'9' then b'0' ∷ increment ds else suc d ∷ ds

abbrev pub digits : ℕ → List ℕ
digits zero = b'0' ∷ []
digits (suc n) = increment (digits n)

abbrev pub onto : List ℕ → List ℕ → List ℕ
onto [] acc = acc
onto (d ∷ ds) acc = onto ds (d ∷ acc)

-- `opt-${index}`
abbrev pub option_id : ℕ → List ℕ
option_id index = codes "opt-" ++ onto (digits index) []

unfoldable pub options_from : ℕ → List String → List PollOption
options_from index [] = []
options_from index (opt ∷ opts) =
    record { id = option_id index; text = opt; votes = 0 } ∷ options_from (suc index) opts

abbrev pub find_option : List ℕ → List PollOption → Option PollOption
find_option id [] = none
find_option id (o ∷ os) = if same_codes o.id id then some o else find_option id os

-- `option.votes += 1` on the option that `find` finds
abbrev pub count_vote : List ℕ → List PollOption → List PollOption
count_vote id [] = []
count_vote id (o ∷ os) =
    if same_codes o.id id then record o { votes = suc o.votes } ∷ os else o ∷ count_vote id os

-- `where: { productionId, isActive: true }`
abbrev pub is_active_in : String → SocialPoll → Bool
is_active_in production_id p = p.production_id == production_id && p.is_active

abbrev pub close : SocialPoll → SocialPoll
close p = record p { is_active = false }

abbrev pub new_poll : String → String → String → List String → SocialPoll
unfolding options_from
new_poll id production_id question options = record {
  id = id;
  production_id = production_id;
  question = question;
  options = options_from 0 options;
  is_active = true;
}

abbrev pub open_poll : Option SocialPoll → Option SocialPoll
open_poll none = none
open_poll (some p) = if p.is_active then some p else none

abbrev pub with_options : List PollOption → SocialPoll → SocialPoll
with_options options p = record p { options = options }

module _ (polls : Table SocialPoll) where
  unfoldable pub create_poll :
      String → String → String → List String → M (World polls.Store Event) SocialPoll
  unfolding new_poll
  create_poll id production_id question options = do
    let poll = new_poll id production_id question options
    writes (λ w. record w { db = polls.update_many (is_active_in production_id) close w.db })
    writes (λ w. record w { db = polls.create poll w.db })
    emit (poll_created poll)
    return poll

  -- what a vote reads: the options, counted
  unfoldable pub read_vote : String → List ℕ → M (World polls.Store Event) (List PollOption)
  read_vote poll_id option_id = do
    w ← reads (λ w. polls.find_first (λ p. p.id == poll_id) w.db)
    poll ← require (open_poll w) (not_found "Poll not found or inactive")
    require (find_option option_id poll.options) (not_found "Option not found")
    return (count_vote option_id poll.options)

  -- what it writes
  unfoldable pub write_vote : String → List PollOption → M (World polls.Store Event) SocialPoll
  write_vote poll_id options = do
    poll ← update_row polls poll_id (with_options options)
    emit (poll_updated poll)
    return poll

  unfoldable pub vote_poll : String → List ℕ → M (World polls.Store Event) SocialPoll
  unfolding read_vote write_vote
  vote_poll poll_id option_id = do options ← read_vote poll_id option_id; write_vote poll_id options

  unfoldable pub close_poll : String → M (World polls.Store Event) SocialPoll
  close_poll poll_id = do
    poll ← update_row polls poll_id close
    emit (poll_closed poll)
    return poll
